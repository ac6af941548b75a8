-- ===== src/Gateway/Terminal/Wakes.antt =====
-- services/gateway/terminal.py and services/terminal/main.py: the Gateway's call and the daemon's
-- handler fit together.
use package.text.Mathlib.TextLemmas.{append-nil, cons-append, nil-append}
use nemoclaw_lab_cl.Base.Http.{HttpError}
use nemoclaw_lab_cl.Base.{
  ℕ, String, true, false, Option, none, some, [], ◌∷◌, ◌==◌, ◌&&◌, if◌then◌else◌, ok, err, ◌≡◌,
  refl, ap, eq_refl,
}
use nemoclaw_lab_cl.Base.Dict.{Dict, get}
use nemoclaw_lab_cl.Base.Json.{Json, dict, at, at_or, lookup, fields}
use nemoclaw_lab_cl.Base.Text.{text, before, startswith}
use nemoclaw_lab_cl.Base.Text.Words.{after_space, lower_is}
use nemoclaw_lab_cl.Terminal.Console.{or_text}
use nemoclaw_lab_cl.Terminal.Daemon
use nemoclaw_lab_cl.Terminal.Daemon.{HostEnv, authorized, Answer, is_id, is_restricted}
use nemoclaw_lab_cl.Terminal.Daemon.Accepts.{wake_agent-accepted}
use nemoclaw_lab_cl.Gateway.Terminal.{
  Met, response, Call, daemon_url, is_enabled, is_started, truthy, bearer, wake_body, wake_agent,
}

bearer_cons :
    (token : String)
    → text ("Bearer " ∷ token ∷ [])
      ≡ String.◌∷◌ "B" (
          String.◌∷◌ "e" (
            String.◌∷◌ "a"
              (String.◌∷◌ "r" (String.◌∷◌ "e" (String.◌∷◌ "r" (String.◌∷◌ " " token))))))
unfolding text
bearer_cons token =
    rw
      (
        append-nil token,
        cons-append "B" "earer " token,
        cons-append "e" "arer " token,
        cons-append "a" "rer " token,
        cons-append "r" "er " token,
        cons-append "e" "r " token,
        cons-append "r" " " token,
        cons-append " " "" token,
        nil-append token,
      )
      refl

header_read :
    (token : String)
    → (lower_is (before " " (text ("Bearer " ∷ token ∷ []))) "bearer" ≡ true)
      × (after_space (text ("Bearer " ∷ token ∷ [])) ≡ token)
unfolding lower_is before after_space startswith
header_read token = rw (bearer_cons token) (refl, refl)

-- the header that the Gateway sends is the one that the daemon expects
bearer_authorized :
    (token : String) → authorized (some (text ("Bearer " ∷ token ∷ []))) token ≡ true
unfolding authorized
bearer_authorized token =
    let (scheme, presented) = header_read token in rw (scheme, presented) (eq_refl token)

-- the daemon as the one that answers
abbrev answered_by : Answer → Met
answered_by (ok body, spawned) = response 200 (some body)
answered_by (err e, spawned) = response e.status_code none

abbrev not_found : HttpError
not_found = record { status_code = 404; detail = "Not Found" }

-- The daemon's `/wake-agent`, which is registered in restricted mode only, as it serves POST requests
-- at its address; any other URL is answered with 404.
unfoldable pub serve_post : String → HostEnv → String → ℕ → String → Option String → Json → Answer
serve_post address host token pid url header body =
    if url == text (address ∷ "/wake-agent" ∷ []) && is_restricted host
    then Daemon.wake_agent host token pid header body
    else (err not_found, [])

abbrev pub daemon_call : String → HostEnv → String → ℕ → Call
daemon_call address host token pid url header body =
    answered_by (serve_post address host token pid url (some header) body)

-- With a daemon in restricted mode at the address that the Gateway's URL names, one token on both
-- sides, well-formed ids and a sandbox, the Gateway's call makes the daemon start exactly one agent
-- turn about this scenario and asset, and the Gateway reports it as started.
pub wake_agent-started :
    (address : String) (host : HostEnv) (pid : ℕ) (env : Dict String)
    (scenario_id asset_id : String)
    → is_enabled env ≡ true
    → daemon_url env "wake-agent" ≡ text (address ∷ "/wake-agent" ∷ [])
    → is_restricted host ≡ true
    → is_id scenario_id ≡ true
    → is_id asset_id ≡ true
    → (or_text "" (get "SANDBOX_NAME" host.env) == "") ≡ false
    → let token = or_text "" (get "TERMINAL_TOKEN" env) in
      (wake_agent (daemon_call address host token pid) env scenario_id asset_id ≡ true)
      × ((serve_post address host token pid
            (daemon_url env "wake-agent")
            (some (bearer env))
            (wake_body scenario_id asset_id)).1
          ≡ Daemon.wake_argv host token
              (or_text "" (get "SANDBOX_NAME" host.env))
              scenario_id
              asset_id
            ∷ [])
unfolding wake_agent serve_post bearer is_started truthy at_or wake_body dict at lookup fields
wake_agent-started address host pid env scenario_id asset_id enabled there restricted good fine
      named =
    let token = or_text "" (get "TERMINAL_TOKEN" env) in
    let accepted =
      wake_agent-accepted host token pid (some (bearer env)) (wake_body scenario_id asset_id)
        scenario_id asset_id (bearer_authorized token) refl refl good fine named in
    let here = eq_refl (text (address ∷ "/wake-agent" ∷ [])) in
    (
      rw (enabled, there, here, restricted, accepted) refl,
      rw (there, here, restricted) (ap (λ x. x.1) accepted),
    )
