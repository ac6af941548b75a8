-- ===== src/Terminal/Daemon/Serve.antt =====
-- services/terminal/main.py: the requests that can make the daemon run a process, and what they make
-- it run. Which routes are registered depends on the environment; another one answers 404.
use nemoclaw_lab_cl.Base.{ℕ, String, Bool, Option, none, some, List, [], ◌∷◌, if◌then◌else◌}
use nemoclaw_lab_cl.Base.Json.{Json}
use nemoclaw_lab_cl.Terminal.Process.{Host, Console}
use nemoclaw_lab_cl.Terminal.Daemon.{
  HostEnv, is_restricted, switch_enabled, switch_pack, wake_agent, terminal_ws,
}
use nemoclaw_lab_cl.Terminal.Daemon.Status.{reset, config_status}

abbrev pub spawned : Option (List String) → List (List String)
spawned none = []
spawned (some argv) = argv ∷ []

-- a request with its header; the two that run the console's actions meet the host as it then is
pub data Request (h : Host) : Type 0 where
  post_switch_pack : Option String → Json → Request h
  post_wake_agent : ℕ → Option String → Json → Request h
  post_reset : Option String → h.World → Request h
  get_config_status : Option String → h.World → Request h
  open_ws : Option String → Request h

module _ (h : Host) where
  abbrev pub header_of : Request h → Option String
  header_of (post_switch_pack header body) = header
  header_of (post_wake_agent pid header body) = header
  header_of (post_reset header w) = header
  header_of (get_config_status header w) = header
  header_of (open_ws header) = header

  abbrev pub fresh : h.World → Console h
  fresh w = record { world = w; ran = []; out = [] }

  module _ (repr : String → String) (which : String → Bool) (home : String) (host : HostEnv)
      (token : String) where
    -- the command lines of the processes that a request leads to
    unfoldable pub serve : Request h → List (List String)
    unfolding switch_pack wake_agent reset config_status terminal_ws switch_enabled is_restricted
    serve (post_switch_pack header body) =
        if switch_enabled host then (switch_pack host token header body).1 else []
    serve (post_wake_agent pid header body) =
        if is_restricted host then (wake_agent host token pid header body).1 else []
    serve (post_reset header w) =
        if is_restricted host
        then (reset h repr which home host token header (fresh w)).1.ran
        else []
    serve (get_config_status header w) =
        if is_restricted host
        then (config_status h repr which home host token header (fresh w)).1.ran
        else []
    serve (open_ws header) = spawned (terminal_ws host token header)
