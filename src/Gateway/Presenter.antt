-- ===== src/Gateway/Presenter.antt =====
-- services/gateway/router.py: the presenter's controls, which drive the Orchestrator and reset all
-- three services. An `HTTPStatusError` or another `httpx.HTTPError` of the Orchestrator is not caught.
pub mod Cleared
use nemoclaw_lab_cl.Base.{
  String, Bool, true, false, not, Option, none, some, List, [], ◌∷◌, ◌==◌, ◌&&◌, if◌then◌else◌,
  Result, ok, err,
}
use nemoclaw_lab_cl.Base.Dict.{Dict, get}
use nemoclaw_lab_cl.Base.Text.{text, rstrip_by, one_of}
use nemoclaw_lab_cl.Models.{Timestamp}
use nemoclaw_lab_cl.Packs.{LoadedPack}
use nemoclaw_lab_cl.McpTools.Server.{McpState, reset_state}
use nemoclaw_lab_cl.Orchestrator.Router
use nemoclaw_lab_cl.Orchestrator.Router.{Lab, Raised, RunResponse, Wire}
use nemoclaw_lab_cl.Gateway.Sse
use nemoclaw_lab_cl.Gateway.Store
use nemoclaw_lab_cl.Gateway.Store.{GatewayStore, AssetRecord}
use nemoclaw_lab_cl.Base.Http.{Delivery, handled}

-- the three services that keep state
pub record System : Type 0 where
  pub lab : Lab
  pub mcp : McpState
  pub store : GatewayStore

-- the Orchestrator did not answer with success, or its body was lost
pub data Uncaught : Type 0 where
  status_error : Raised → Uncaught
  http_error : Uncaught

abbrev raise_for_status : {A : Type 0} → Result Raised A → Result Uncaught A
raise_for_status (ok a) = ok a
raise_for_status (err e) = err (status_error e)

-- a call that the Orchestrator handles or not, and whose answer arrives or not
unfoldable pub delivered :
    {A : Type 0} → Delivery → (Lab → Result Raised A × Lab) → Lab → Result Uncaught A × Lab
delivered Delivery.answered call lab = let (r, lab') = call lab in (raise_for_status r, lab')
delivered Delivery.unanswered call lab = (err http_error, (call lab).1)
delivered Delivery.rejected call lab = (err http_error, lab)
delivered Delivery.lost call lab = (err http_error, lab)

-- how the agent is told
pub data Wake : Type 0 where
  by_terminal : Wake
  -- the URL, the bearer token and the text of `/hooks/wake`
  by_hook : String → String → String → Wake
  not_told : Wake

abbrev or_empty : Option String → String
or_empty none = ""
or_empty (some s) = s

unfoldable pub wake_text : String → String → String
wake_text scenario_id asset_id = text (
    "fault-event: scenario " ∷ scenario_id ∷ " injected on " ∷ asset_id
    ∷ " — run the Infrastructure Fault Response program now" ∷ [])

-- `_fire_agent_webhook`; `wake_agent` stands for the answer of the terminal daemon
unfoldable pub fire_agent_webhook : (String → String → Bool) → Dict String → String → String → Wake
unfolding wake_text
fire_agent_webhook wake_agent env scenario_id asset_id =
    let hook_url = or_empty (get "OPENCLAW_HOOK_URL" env) in
    let hook_token = or_empty (get "OPENCLAW_HOOK_TOKEN" env) in
    if not (scenario_id == "") && not (asset_id == "") && wake_agent scenario_id asset_id
    then by_terminal
    else if not (hook_url == "") && not (hook_token == "")
    then by_hook (text (rstrip_by (one_of "/") hook_url ∷ "/hooks/wake" ∷ [])) hook_token
        (wake_text scenario_id asset_id)
    else not_told

unfoldable pub told :
    (String → String → Bool)
    → Dict String
    → Result Uncaught RunResponse
    → Result Uncaught (RunResponse × Wake)
unfolding fire_agent_webhook
told wake_agent env (err e) = err e
told wake_agent env (ok data_) =
    ok (data_, fire_agent_webhook wake_agent env data_.scenario_id data_.target_asset)

-- `scenario: str | None`, where "" rotates too
unfoldable pub run_route :
    Wire
    → (List String → String)
    → (String → List String → String)
    → LoadedPack
    → Timestamp
    → Option String
    → Lab
    → Result Raised RunResponse × Lab
run_route wire choice unknown_scenario loaded now none lab =
    Router.run_next wire choice loaded now lab
run_route wire choice unknown_scenario loaded now (some scenario) lab =
    if scenario == ""
    then Router.run_next wire choice loaded now lab
    else Router.run_specific wire unknown_scenario scenario loaded now lab

unfoldable pub presenter_inject :
    Wire
    → (List String → String)
    → (String → List String → String)
    → (String → String → Bool)
    → Dict String
    → LoadedPack
    → Timestamp
    → Delivery
    → Option String
    → Lab
    → Result Uncaught (RunResponse × Wake) × Lab
unfolding run_route delivered told
presenter_inject wire choice unknown_scenario wake_agent env loaded now orch scenario lab =
    let (r, lab') =
      delivered orch (run_route wire choice unknown_scenario loaded now scenario) lab in
    (told wake_agent env r, lab')

-- the loop over `list_assets()` after the reset
unfoldable pub push_assets : List AssetRecord → GatewayStore → GatewayStore
push_assets [] s = s
push_assets (a ∷ assets) s = push_assets assets (Store.publish (Sse.asset a.id a.state none) s)

unfoldable pub reset_store : GatewayStore → GatewayStore
unfolding push_assets
reset_store s = let s' = Store.reset s in push_assets (Store.list_assets s') s'

-- what follows the Orchestrator's answer; the reset of MCP Tools is best effort
unfoldable pub reset_rest :
    Delivery → Result Uncaught (Dict String) × Lab → System → Result Uncaught String × System
unfolding reset_store
reset_rest tools (err e, lab') sys = (err e, record sys { lab = lab' })
reset_rest tools (ok body, lab') sys = (
  ok "idle",
  record {
    lab = lab';
    mcp = if handled tools then reset_state sys.mcp else sys.mcp;
    store = reset_store sys.store;
  },
)

unfoldable pub presenter_reset :
    Wire → Delivery → Delivery → System → Result Uncaught String × System
unfolding reset_rest delivered
presenter_reset wire orch tools sys =
    reset_rest tools (delivered orch (Router.reset wire) sys.lab) sys
