-- ===== src/Terminal/Daemon/Accepts.antt =====
-- services/terminal/main.py: the branch of `/wake-agent` in which the agent is told.
use nemoclaw_lab_cl.Base.{ℕ, String, true, false, Option, [], ◌∷◌, ◌==◌, ok, ◌≡◌, refl}
use nemoclaw_lab_cl.Base.Dict.{get}
use nemoclaw_lab_cl.Base.Json.{Json, str, num, bool, dict, at_or}
use nemoclaw_lab_cl.Terminal.Console.{or_text}
use nemoclaw_lab_cl.Terminal.Daemon.{
  HostEnv, authorized, is_id, wake_in, wake_valid, wake_argv, wake_agent,
}

pub wake_agent-accepted :
    (host : HostEnv) (token : String) (pid : ℕ) (header : Option String) (body : Json)
    (scenario_id asset_id : String)
    → authorized header token ≡ true
    → at_or "scenario_id" (str "") body ≡ str scenario_id
    → at_or "asset_id" (str "") body ≡ str asset_id
    → is_id scenario_id ≡ true
    → is_id asset_id ≡ true
    → (or_text "" (get "SANDBOX_NAME" host.env) == "") ≡ false
    → wake_agent host token pid header body ≡ (
      ok (dict (("ok", bool true) ∷ ("status", str "agent-turn-started") ∷ ("pid", num pid) ∷ [])),
      wake_argv host token (or_text "" (get "SANDBOX_NAME" host.env)) scenario_id asset_id ∷ [],
    )
unfolding wake_agent wake_valid wake_in
wake_agent-accepted host token pid header body scenario_id asset_id allowed scenario asset good fine
      named =
    rw (allowed, scenario, asset, good, fine, wake_valid, named, wake_in) refl
