-- ===== src/Terminal/Daemon/Status.antt =====
-- services/terminal/main.py: `/reset` and `/config-status`, which run the console's actions. An error
-- that a handler does not catch is answered with status 500.
use nemoclaw_lab_cl.Base.{
  String, Bool, true, false, Option, none, some, List, [], ◌∷◌, map, if◌then◌else◌, Result, ok, err,
}
use nemoclaw_lab_cl.Base.Dict.{Dict, get}
use nemoclaw_lab_cl.Base.Http.{HttpError}
use nemoclaw_lab_cl.Base.Json.{Json, str, bool, dict, list}
use nemoclaw_lab_cl.Terminal.Process.{Host, Console, Io, NotInstalled}
use nemoclaw_lab_cl.Terminal.Console.{
  ConsoleConfig, NotConfigured, MenuTarget, menu_targets, load_config,
}
use nemoclaw_lab_cl.Terminal.Console.Actions.{run_reset, check_configured}
use nemoclaw_lab_cl.Terminal.Daemon.{HostEnv, authorized}

abbrev internal_error : HttpError
internal_error = record { status_code = 500; detail = "Internal Server Error" }

abbrev pub flag_or_false : Option Bool → Bool
flag_or_false none = false
flag_or_false (some b) = b

-- the labels of the targets that are not configured
unfoldable pub missing_labels : Dict Bool → List MenuTarget → List String
missing_labels result [] = []
missing_labels result (t ∷ targets) =
    let rest = missing_labels result targets in
    if flag_or_false (get t.key result) then rest else t.label ∷ rest

abbrev is_empty : List String → Bool
is_empty [] = true
is_empty (x ∷ xs) = false

unfoldable pub status_body : Dict Bool → Json
unfolding missing_labels
status_body result =
    let missing = missing_labels result menu_targets in
    dict (("configured", bool (is_empty missing)) ∷ ("missing", list (map str missing)) ∷ [])

module _ (h : Host) (repr : String → String) (which : String → Bool) (home : String)
    (host : HostEnv) (token : String) where
  abbrev pub Served : Type 0
  Served = Result HttpError Json × Console h

  abbrev pub answered : {A : Type 0} → (A → Json) → Result NotInstalled A × Console h → Served
  answered body (ok a, c) = (ok (body a), c)
  answered body (err e, c) = (err internal_error, c)

  abbrev pub with_config :
      {A : Type 0}
      → (A → Json)
      → (ConsoleConfig → Io h A)
      → Result NotConfigured ConsoleConfig
      → Console h
      → Served
  with_config body action (err e) c = (err internal_error, c)
  with_config body action (ok config) c = answered body (action config c)

  abbrev unauthorized : HttpError
  unauthorized = record { status_code = 401; detail = "Unauthorized" }

  unfoldable pub reset : Option String → Console h → Served
  unfolding authorized load_config run_reset
  reset header c =
      if authorized header token
      then with_config (λ all_ok. dict (("ok", bool all_ok) ∷ []))
          (λ config. run_reset h repr config menu_targets) (load_config which home host.env) c
      else (err unauthorized, c)

  unfoldable pub config_status : Option String → Console h → Served
  unfolding authorized load_config check_configured status_body
  config_status header c =
      if authorized header token
      then with_config status_body (λ config. check_configured h repr config menu_targets)
          (load_config which home host.env) c
      else (err unauthorized, c)
