-- ===== src/Orchestrator/Queries.antt =====
-- services/orchestrator/router.py: the routes that only read the orchestrator's state.
use nemoclaw_lab_cl.Base.{
  String, Option, none, some, List, [], ◌∷◌, ◌==◌, if◌then◌else◌, Result, ok, err, ◌>>=◌,
}
use nemoclaw_lab_cl.Base.Dict.{Dict, get}
use nemoclaw_lab_cl.Base.Http.{HttpError}
use nemoclaw_lab_cl.Base.Text.{text}
use nemoclaw_lab_cl.Models.{Scenario, ScenarioStatus}
use nemoclaw_lab_cl.Packs.{LoadedPack}
use nemoclaw_lab_cl.Simulator.Engine.{flat, or_default}
use nemoclaw_lab_cl.Orchestrator.Highlight.{extract_highlight}
use nemoclaw_lab_cl.Orchestrator.Router.{Lab, RunResponse, Raised, http, key, run_response}

pub record LogsResponse : Type 0 where
  pub asset_id : String
  pub scenario_id : String
  pub log_text : String
  pub log_highlight : Option String

pub record ScenarioSummary : Type 0 where
  pub id : String
  pub fault_type : String
  pub target_asset : String
  pub error_signatures : List String
  pub status : ScenarioStatus

pub record ScenariosResponse : Type 0 where
  pub scenarios : List ScenarioSummary
  pub last_used : Option String

summary : Scenario → ScenarioSummary
summary s = record {
  id = s.id;
  fault_type = s.fault_type;
  target_asset = s.target_asset;
  error_signatures = s.error_signatures;
  status = s.status;
}

summaries : List Scenario → List ScenarioSummary
unfolding summary
summaries [] = []
summaries (s ∷ ss) = summary s ∷ summaries ss

unfoldable pub list_scenarios : LoadedPack → Lab → ScenariosResponse
unfolding summaries summary
list_scenarios loaded lab = record {
  scenarios = summaries loaded.scenarios;
  last_used = lab.rotation.last;
}

unfoldable pub active_response : Option String → LoadedPack → Result Raised (Option RunResponse)
active_response none loaded = ok none
active_response (some sid) loaded =
    if sid == "" then ok none else (run_response sid loaded >>= λ r. ok (some r))

unfoldable pub current_of :
    Dict (Option String) → LoadedPack → Result Raised (Dict (Option RunResponse))
current_of [] loaded = ok []
current_of ((asset_id, sid) ∷ items) loaded =
    let rest = current_of items loaded in
    active_response sid loaded >>= λ r. rest >>= λ rs. ok ((asset_id, r) ∷ rs)

-- the body of `get_current`
unfoldable pub get_current : LoadedPack → Lab → Result Raised (Dict (Option RunResponse))
get_current loaded lab = current_of lab.active_scenarios loaded

module _ (repr : String → String) where
  no_active : String → HttpError
  no_active asset_id = record {
    status_code = 404;
    detail = text ("No active scenario for asset " ∷ repr asset_id ∷ []);
  }

  logs_of :
      (String → String)
      → String
      → String
      → LoadedPack
      → Option Scenario
      → Result Raised LogsResponse
  logs_of stamp_today asset_id scenario_id loaded none = err (key scenario_id)
  logs_of stamp_today asset_id scenario_id loaded (some s) =
      let log_text = stamp_today (or_default "" (get s.log_bundle_ref loaded.log_bundles)) in
      ok (record {
        asset_id = asset_id;
        scenario_id = scenario_id;
        log_text = log_text;
        log_highlight = extract_highlight log_text s.error_signatures;
      })

  -- `stamp_today` is `_stamp_today`, the substitution of a regular expression
  unfoldable pub get_logs :
      (String → String) → String → LoadedPack → Lab → Result Raised LogsResponse
  unfolding logs_of no_active
  get_logs stamp_today asset_id loaded lab = elim (flat (get asset_id lab.active_scenarios)) [
    | none ↦ err (http (no_active asset_id))
    | some scenario_id ↦
        logs_of stamp_today asset_id scenario_id loaded (get scenario_id loaded.scenarios_by_id)
  ]

  unfoldable pub get_asset_scenario : String → LoadedPack → Lab → Result Raised RunResponse
  unfolding no_active
  get_asset_scenario asset_id loaded lab = elim (flat (get asset_id lab.active_scenarios)) [
    | none ↦ err (http (no_active asset_id))
    | some scenario_id ↦ run_response scenario_id loaded
  ]
