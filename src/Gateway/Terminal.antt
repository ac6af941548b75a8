-- ===== src/Gateway/Terminal.antt =====
-- services/gateway/terminal.py: the HTTP calls that the Gateway passes on to the terminal daemon. The
-- WebSocket that carries a terminal session is not modelled.
pub mod Wakes
use nemoclaw_lab_cl.Base.{
  ℕ, String, Bool, true, false, not, Option, none, some, List, [], ◌∷◌, ◌==◌, ◌=ℕ◌, ◌&&◌, leb,
  if◌then◌else◌, Result, ok, err,
}
use nemoclaw_lab_cl.Base.Dict.{Dict, get}
use nemoclaw_lab_cl.Base.Json.{
  Json, null, bool, num, str, arr, obj, nil, item, end, field, dict, at_or,
}
use nemoclaw_lab_cl.Base.Text.{text, removesuffix, lstrip_by, one_of, decimal}
use nemoclaw_lab_cl.Base.Text.Words.{replace}
use nemoclaw_lab_cl.Terminal.Console.{or_text}

-- `bool(url and token) and os.environ.get("TERMINAL_ENABLED") != "0"`
unfoldable pub is_enabled : Dict String → Bool
is_enabled env =
    not (or_text "" (get "TERMINAL_WS_URL" env) == "")
    && not (or_text "" (get "TERMINAL_TOKEN" env) == "")
    && not (or_text "" (get "TERMINAL_ENABLED" env) == "0")

-- `_daemon_http_url`
unfoldable pub daemon_http_url : String → String → String
unfolding replace lstrip_by one_of
daemon_http_url ws_url path =
    let http_url = replace "ws://" "http://" (replace "wss://" "https://" ws_url) in
    text (removesuffix "/ws" http_url ∷ "/" ∷ lstrip_by (one_of "/") path ∷ [])

-- What a call to the daemon meets: an `httpx.HTTPError`, or a status with a body that may be no JSON.
pub data Met : Type 0 where
  unreachable : Met
  response : ℕ → Option Json → Met

-- a call takes the URL, the `Authorization` header and the body
abbrev pub Call : Type 0
Call = String → String → Json → Met

-- `bool(value)`
unfoldable pub truthy : Json → Bool
truthy null = false
truthy (bool b) = b
truthy (num n) = not (n =ℕ 0)
truthy (str s) = not (s == "")
truthy (arr nil) = false
truthy (arr (item x xs)) = true
truthy (obj end) = false
truthy (obj (field k v fs)) = true

-- what `wake_agent` makes of the daemon's answer, whose body is an object where it is JSON
unfoldable pub is_started : Met → Bool
unfolding truthy
is_started unreachable = false
is_started (response status none) = false
is_started (response status (some body)) =
    if leb 400 status then false else truthy (at_or "ok" null body)

unfoldable pub bearer : Dict String → String
bearer env = text ("Bearer " ∷ or_text "" (get "TERMINAL_TOKEN" env) ∷ [])

unfoldable pub daemon_url : Dict String → String → String
unfolding daemon_http_url
daemon_url env path = daemon_http_url (or_text "" (get "TERMINAL_WS_URL" env)) path

unfoldable pub wake_body : String → String → Json
wake_body scenario_id asset_id =
    dict (("scenario_id", str scenario_id) ∷ ("asset_id", str asset_id) ∷ [])

unfoldable pub wake_agent : Call → Dict String → String → String → Bool
unfolding is_enabled is_started daemon_url bearer wake_body
wake_agent call env scenario_id asset_id =
    if is_enabled env
    then is_started
        (call (daemon_url env "wake-agent") (bearer env) (wake_body scenario_id asset_id))
    else false

abbrev refusal : String → Json
refusal error = dict (("ok", bool false) ∷ ("error", str error) ∷ [])

-- the `ValueError` of `resp.json()`, which is not caught
pub data NotJson : Type 0 where
  not_json : NotJson

unfoldable pub passed_on : Met → Result NotJson Json
passed_on unreachable = ok (refusal "daemon unreachable")
passed_on (response status none) = err not_json
passed_on (response status (some body)) = ok body

unfoldable pub terminal_reset : Call → Dict String → Result NotJson Json
unfolding is_enabled passed_on daemon_url bearer
terminal_reset call env =
    if is_enabled env
    then passed_on (call (daemon_url env "reset") (bearer env) null)
    else ok (refusal "terminal disabled")

unfoldable pub terminal_switch_pack : Call → Dict String → Json → Result NotJson Json
unfolding is_enabled passed_on daemon_url bearer
terminal_switch_pack call env body =
    if is_enabled env
    then passed_on (call (daemon_url env "switch-pack") (bearer env) body)
    else ok (refusal "terminal disabled")

unfoldable pub terminal_enabled : Dict String → Json
unfolding is_enabled
terminal_enabled env = dict (("enabled", bool (is_enabled env)) ∷ [])
