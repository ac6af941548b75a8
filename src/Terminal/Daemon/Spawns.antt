-- ===== src/Terminal/Daemon/Spawns.antt =====
-- services/terminal/main.py: what a request can make the daemon spawn.
use nemoclaw_lab_cl.Base.{String, Bool, true, false, List, [], ◌∷◌, ◌≡◌, ok}
use nemoclaw_lab_cl.Base.Dict.{get}
use nemoclaw_lab_cl.Base.Json.{Json}
use nemoclaw_lab_cl.Terminal.Console.{or_text}
use nemoclaw_lab_cl.Terminal.Daemon.{
  HostEnv, is_restricted, switch_enabled, switch_argv, wake_argv, is_pack_id, is_id,
}
use nemoclaw_lab_cl.Terminal.Process.{Host, Console}
use nemoclaw_lab_cl.Terminal.Console.{ConsoleConfig, load_config}
use nemoclaw_lab_cl.Terminal.Console.Commands.{IsCommand}
use nemoclaw_lab_cl.Terminal.Console.Commands.Checks.{IsCheck}

module _ (h : Host) (repr : String → String) (which : String → Bool) (home : String)
    (host : HostEnv) (token : String) where
  -- The command lines that the daemon may spawn.
  pub data IsSpawn : List String → Type 0 where
    login_shell : is_restricted host ≡ false → IsSpawn ("/bin/bash" ∷ "-l" ∷ [])
    console :
        is_restricted host ≡ true
        → IsSpawn (host.executable ∷ "-m" ∷ "services.terminal.console" ∷ [])
    pack_switch :
        (pack_id : String)
        → switch_enabled host ≡ true
        → is_pack_id pack_id ≡ true
        → host.has_pack pack_id ≡ true
        → IsSpawn (switch_argv host token pack_id)
    agent_turn :
        (scenario_id asset_id : String)
        → is_restricted host ≡ true
        → is_id scenario_id ≡ true
        → is_id asset_id ≡ true
        → IsSpawn
            (wake_argv host token (or_text "" (get "SANDBOX_NAME" host.env)) scenario_id asset_id)
    -- what the console runs for a reset, and for a check of its configuration
    reset_command :
        {config : ConsoleConfig} {argv : List String}
        → is_restricted host ≡ true
        → load_config which home host.env ≡ ok config
        → IsCommand h repr config argv
        → IsSpawn argv
    check_command :
        {config : ConsoleConfig} {argv : List String}
        → is_restricted host ≡ true
        → load_config which home host.env ≡ ok config
        → IsCheck h repr config argv
        → IsSpawn argv
