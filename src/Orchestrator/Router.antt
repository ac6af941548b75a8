-- ===== src/Orchestrator/Router.antt =====
-- services/orchestrator/router.py and simulator_client.py: the routes, over the simulator that the
-- client drives. `raise_for_status` turns an error status of the simulator into an exception, and a
-- call can break or exceed its timeout, handled or not.
pub mod Sync
pub mod Clearing
pub mod Active
use nemoclaw_lab_cl.Base.{
  ℕ, String, Bool, true, false, Option, none, some, List, [], ◌∷◌, ◌==◌, if◌then◌else◌, Result, ok,
  err, ◌>>=◌,
}
use nemoclaw_lab_cl.Base.Dict.{Dict, get, put}
use nemoclaw_lab_cl.Base.Http.{HttpError, Delivery}
use nemoclaw_lab_cl.Base.Text.{text}
use nemoclaw_lab_cl.Models.{Timestamp, RemediationStep, PackAsset, Scenario, ScenarioStatus}
use nemoclaw_lab_cl.Packs.{LoadedPack}
use nemoclaw_lab_cl.Simulator.Engine
use nemoclaw_lab_cl.Simulator.Engine.{SimulatorEngine, InjectedFault, Unknown, flat, or_default}
use nemoclaw_lab_cl.Orchestrator.Rotation
use nemoclaw_lab_cl.Orchestrator.Rotation.{RotationPolicy}
use nemoclaw_lab_cl.Orchestrator.Highlight.{extract_highlight}

pub record RunResponse : Type 0 where
  pub scenario_id : String
  pub target_asset : String
  pub fault_type : String
  pub error_signatures : List String
  pub kb_article_ref : String
  pub remediation_steps : List RemediationStep
  pub log_extract : Option String

-- the orchestrator's `app.state`, beside the simulator's engine
pub record Lab : Type 0 where
  pub rotation : RotationPolicy
  pub active_scenarios : Dict (Option String)
  pub engine : SimulatorEngine

all_idle : Dict (Option String) → List PackAsset → Dict (Option String)
all_idle d [] = d
all_idle d (a ∷ assets) = all_idle (put a.id none d) assets

ids_of : List Scenario → List String
ids_of [] = []
ids_of (s ∷ ss) = s.id ∷ ids_of ss

lab_with : LoadedPack → Option RotationPolicy → Option Lab
lab_with loaded none = none
lab_with loaded (some p) = some (record {
  rotation = p;
  active_scenarios = all_idle [] loaded.pack.assets;
  engine = Engine.created loaded;
})

-- services/orchestrator/main.py, `lifespan`, and the simulator it finds: a pack without a scenario
-- stops the service
unfoldable pub started : LoadedPack → Option Lab
unfolding all_idle ids_of lab_with
started loaded = lab_with loaded (Rotation.created (ids_of loaded.scenarios))

-- what a route can raise: its own `HTTPException`, a `KeyError` on a scenario id, the client's
-- error on an answer of the engine, or its error on any other answer or on none
pub data Raised : Type 0 where
  http : HttpError → Raised
  key : String → Raised
  simulator : Unknown → Raised
  not_delivered : Raised

-- what the client's calls meet: a `clear`, by its asset, and the `inject`
pub record Wire : Type 0 where
  pub clearing : String → Delivery
  pub injecting : Delivery

-- a call of the client, with what it makes of the engine
unfoldable pub called :
    {A : Type 0} → Delivery → Result Unknown A × SimulatorEngine → Lab → Result Raised A × Lab
called Delivery.answered (err u, e) lab = (err (simulator u), record lab { engine = e })
called Delivery.answered (ok a, e) lab = (ok a, record lab { engine = e })
called Delivery.unanswered (r, e) lab = (err not_delivered, record lab { engine = e })
called Delivery.rejected x lab = (err not_delivered, lab)
called Delivery.lost x lab = (err not_delivered, lab)

-- the write of the active scenario, after a call that did not raise
unfoldable pub written :
    {A : Type 0} → String → Option String → Result Raised A × Lab → Result Raised A × Lab
written asset_id current_id (err r, lab) = (err r, lab)
written asset_id current_id (ok a, lab) =
    (ok a, record lab { active_scenarios = put asset_id current_id lab.active_scenarios })

-- `HttpSimulatorClient.clear`, then the write
unfoldable pub clear_asset : Wire → String → Option String → Lab → Result Raised (Unit {0}) × Lab
unfolding called written
clear_asset wire asset_id none lab = (ok tt, lab)
clear_asset wire asset_id (some current_id) lab =
    written asset_id none (called (wire.clearing asset_id) (Engine.clear asset_id lab.engine) lab)

and_then {ℓ} :
    {A : Type ℓ}
    → Result Raised (Unit {0}) × Lab
    → (Lab → Result Raised A × Lab)
    → Result Raised A × Lab
and_then (err r, lab) k = (err r, lab)
and_then (ok done, lab) k = k lab

-- the loop over `list(active.items())`: it stops at the first call that raises
unfoldable pub clear_each : Wire → Dict (Option String) → Lab → Result Raised (Unit {0}) × Lab
unfolding and_then
clear_each wire [] lab = (ok tt, lab)
clear_each wire ((asset_id, current_id) ∷ items) lab =
    and_then (clear_asset wire asset_id current_id lab) (clear_each wire items)

unfoldable pub response_of : Scenario → RunResponse
response_of s = record {
  scenario_id = s.id;
  target_asset = s.target_asset;
  fault_type = s.fault_type;
  error_signatures = s.error_signatures;
  kb_article_ref = s.kb_article_ref;
  remediation_steps = s.remediation_steps;
  log_extract = s.log_extract;
}

run_response_of : String → Option Scenario → Result Raised RunResponse
run_response_of scenario_id none = err (key scenario_id)
run_response_of scenario_id (some s) = ok (response_of s)

unfoldable pub run_response : String → LoadedPack → Result Raised RunResponse
unfolding run_response_of response_of
run_response scenario_id loaded =
    run_response_of scenario_id (get scenario_id loaded.scenarios_by_id)

-- the response, after a call that did not raise
unfoldable pub responded :
    {A : Type 0} → Scenario → Result Raised A × Lab → Result Raised RunResponse × Lab
unfolding response_of
responded s (err r, lab) = (err r, lab)
responded s (ok a, lab) = (ok (response_of s), lab)

start_scenario : Wire → String → Option Scenario → Timestamp → Lab → Result Raised RunResponse × Lab
start_scenario wire scenario_id none now lab = (err (key scenario_id), lab)
start_scenario wire scenario_id (some s) now lab = responded s (
    written s.target_asset (some scenario_id)
      (called wire.injecting (Engine.inject s.target_asset scenario_id now lab.engine) lab))

unfoldable pub inject :
    Wire → String → LoadedPack → Timestamp → Lab → Result Raised RunResponse × Lab
unfolding start_scenario called written responded and_then response_of
inject wire scenario_id loaded now lab =
    and_then (clear_each wire lab.active_scenarios lab)
      (start_scenario wire scenario_id (get scenario_id loaded.scenarios_by_id) now)

abbrev pub with_rotation : RotationPolicy → Lab → Lab
with_rotation p lab = record {
  rotation = p;
  active_scenarios = lab.active_scenarios;
  engine = lab.engine;
}

unfoldable pub run_next :
    Wire → (List String → String) → LoadedPack → Timestamp → Lab → Result Raised RunResponse × Lab
run_next wire choice loaded now lab =
    let (scenario_id, p) = Rotation.next choice lab.rotation in
    inject wire scenario_id loaded now (with_rotation p lab)

forced :
    Wire
    → HttpError
    → String
    → LoadedPack
    → Timestamp
    → Option RotationPolicy
    → Lab
    → Result Raised RunResponse × Lab
forced wire unknown scenario_id loaded now none lab = (err (http unknown), lab)
forced wire unknown scenario_id loaded now (some p) lab =
    inject wire scenario_id loaded now (with_rotation p lab)

-- `unknown_scenario` renders the `KeyError` of `force`, with the ids that are available
unfoldable pub run_specific :
    Wire
    → (String → List String → String)
    → String
    → LoadedPack
    → Timestamp
    → Lab
    → Result Raised RunResponse × Lab
unfolding forced
run_specific wire unknown_scenario scenario_id loaded now lab =
    forced wire
      (record { status_code = 404; detail = unknown_scenario scenario_id lab.rotation.ids })
      scenario_id loaded now (Rotation.force scenario_id lab.rotation) lab

idle : Lab → Result Raised (Dict String) × Lab
idle lab = (ok (("status", "idle") ∷ []), with_rotation (Rotation.reset lab.rotation) lab)

unfoldable pub reset : Wire → Lab → Result Raised (Dict String) × Lab
unfolding idle and_then
reset wire lab = and_then (clear_each wire lab.active_scenarios lab) idle
