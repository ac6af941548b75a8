-- ===== src/Terminal/Daemon.antt =====
-- services/terminal/main.py: the daemon on the lab host. A request is its `Authorization` header and
-- its body, a JSON object. What a handler spawns is the list of command lines beside its answer; the bytes that
-- flow through the PTY afterwards are not modelled.
pub mod Status
pub mod Serve
pub mod Spawns
pub mod Accepts
use nemoclaw_lab_cl.Base.{
  ℕ, String, Bool, true, false, not, Option, none, some, List, [], ◌∷◌, ◌==◌, ◌&&◌, if◌then◌else◌,
  Result, ok, err, ◌>>=◌, ◌>>◌, guard,
}
use nemoclaw_lab_cl.Base.Dict.{Dict, get}
use nemoclaw_lab_cl.Base.Http.{HttpError}
use nemoclaw_lab_cl.Base.Json.{Json, str, bool, num, dict, list, at_or}
use nemoclaw_lab_cl.Base.Text.{text, before}
use nemoclaw_lab_cl.Base.Text.Words.{lower_is, after_space, matches_class, pack_id_char, id_char}
use nemoclaw_lab_cl.Terminal.Console.{or_text, MenuTarget, menu_targets}

-- `_authorized` and `_authorized_request`; `compare_digest` compares ASCII texts
unfoldable pub authorized : Option String → String → Bool
authorized header token =
    let presented = or_text "" header in
    lower_is (before " " presented) "bearer" && after_space presented == token

-- what the daemon reads of its host: the environment, the interpreter, and which packs are there
pub record HostEnv : Type 0 where
  pub env : Dict String
  pub executable : String
  pub repo_root : String
  -- `(_REPO_ROOT / "packs" / pack_id / "pack.yaml").is_file()`
  pub has_pack : String → Bool

unfoldable pub is_restricted : HostEnv → Bool
is_restricted host = or_text "shell" (get "TERMINAL_MODE" host.env) == "restricted"

unfoldable pub switch_enabled : HostEnv → Bool
switch_enabled host = not (or_text "1" (get "SWITCH_PACK_ENABLED" host.env) == "0")

unfoldable pub shell_argv : HostEnv → List String
unfolding is_restricted
shell_argv host =
    if is_restricted host
    then host.executable ∷ "-m" ∷ "services.terminal.console" ∷ []
    else "/bin/bash" ∷ "-l" ∷ []

-- the `RuntimeError`s that refuse to start
pub data Refused : Type 0 where
  token_not_set sandbox_not_set : Refused

-- `_require_token`
unfoldable pub require_token : HostEnv → Result Refused String
require_token host =
    let token = or_text "" (get "TERMINAL_TOKEN" host.env) in
    if token == "" then err token_not_set else ok token

-- `token or _require_token()`
unfoldable pub resolve_token : Option String → HostEnv → Result Refused String
unfolding require_token
resolve_token none host = require_token host
resolve_token (some token) host = if token == "" then require_token host else ok token

-- `_require_sandbox_name`, in restricted mode
unfoldable pub require_sandbox_name : HostEnv → Result Refused (Unit {0})
unfolding is_restricted
require_sandbox_name host =
    guard (not (is_restricted host && or_text "" (get "SANDBOX_NAME" host.env) == ""))
      sandbox_not_set

-- the token that the app answers to
unfoldable pub create_app : Option String → HostEnv → Result Refused String
unfolding resolve_token require_sandbox_name
create_app token host =
    resolve_token token host >>= λ resolved. require_sandbox_name host >> ok resolved

abbrev pub Answer : Type 0
Answer = Result HttpError Json × List (List String)

abbrev unauthorized : HttpError
unauthorized = record { status_code = 401; detail = "Unauthorized" }

-- `isinstance(value, str) and pattern.fullmatch(value)`
abbrev pub valid_text : (String → Bool) → Json → Option String
valid_text valid (str s) = if valid s then some s else none
valid_text valid _ = none

unfoldable pub is_pack_id : String → Bool
is_pack_id s = matches_class pack_id_char s

unfoldable pub is_id : String → Bool
is_id s = matches_class id_char s

module _ (host : HostEnv) (token : String) where
  unfoldable pub switch_argv : String → List String
  switch_argv pack_id = text (host.repo_root ∷ "/deploy/scripts/switch-pack.sh" ∷ []) ∷ pack_id ∷ []

  switch_known : String → Bool → Answer
  switch_known pack_id false =
      (err (record { status_code = 404; detail = text ("unknown pack: " ∷ pack_id ∷ []) }), [])
  switch_known pack_id true = (
    ok (
        dict
          (("ok", bool true) ∷ ("status", str "switch-started") ∷ ("pack_id", str pack_id) ∷ [])),
    switch_argv pack_id ∷ [],
  )

  switch_valid : Option String → Answer
  unfolding switch_known switch_argv
  switch_valid none = (err (record { status_code = 400; detail = "invalid pack_id" }), [])
  switch_valid (some pack_id) = switch_known pack_id (host.has_pack pack_id)

  unfoldable pub switch_pack : Option String → Json → Answer
  unfolding authorized switch_valid switch_known switch_argv is_pack_id
  switch_pack header body =
      if authorized header token
      then switch_valid (valid_text is_pack_id (at_or "pack_id" (str "") body))
      else (err unauthorized, [])

  unfoldable pub wake_argv : String → String → String → List String
  wake_argv sandbox scenario_id asset_id =
      "nemoclaw"
      ∷ sandbox
      ∷ "agent"
      ∷ "-m"
      ∷ text (
          "fault-event: scenario " ∷ scenario_id ∷ " injected on " ∷ asset_id
          ∷ " — run the Infrastructure Fault Response program now" ∷ [])
      ∷ "--session-key"
      ∷ "agent:main:main"
      ∷ []

  wake_in : ℕ → String → String → String → Bool → Answer
  unfolding wake_argv
  wake_in pid sandbox scenario_id asset_id true =
      (err (record { status_code = 503; detail = "SANDBOX_NAME is not set" }), [])
  wake_in pid sandbox scenario_id asset_id false = (
    ok (dict (("ok", bool true) ∷ ("status", str "agent-turn-started") ∷ ("pid", num pid) ∷ [])),
    wake_argv sandbox scenario_id asset_id ∷ [],
  )

  -- the loop over the two fields
  wake_valid : ℕ → Option String → Option String → Answer
  unfolding wake_in wake_argv
  wake_valid pid none asset_id =
      (err (record { status_code = 400; detail = "invalid scenario_id" }), [])
  wake_valid pid (some scenario_id) none =
      (err (record { status_code = 400; detail = "invalid asset_id" }), [])
  wake_valid pid (some scenario_id) (some asset_id) =
      let sandbox = or_text "" (get "SANDBOX_NAME" host.env) in
      wake_in pid sandbox scenario_id asset_id (sandbox == "")

  -- `pid` is the number that the new process gets
  unfoldable pub wake_agent : ℕ → Option String → Json → Answer
  unfolding authorized wake_valid wake_in wake_argv is_id
  wake_agent pid header body =
      if authorized header token
      then wake_valid pid (valid_text is_id (at_or "scenario_id" (str "") body))
          (valid_text is_id (at_or "asset_id" (str "") body))
      else (err unauthorized, [])

  -- the start of a terminal connection: what is spawned, `none` when the socket is closed with 1008
  unfoldable pub terminal_ws : Option String → Option (List String)
  unfolding authorized shell_argv
  terminal_ws header = if authorized header token then some (shell_argv host) else none
