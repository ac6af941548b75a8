-- ===== src/Tests/Redfish.antt =====
-- Two simulated assets behind the Redfish surface, read by the Redfish adapter.
use nemoclaw_lab_cl.Base.{
  String, true, none, some, [], ◌∷◌, ◌==◌, if◌then◌else◌, Result, ok, err, map, elem, ◌≡◌, ◌≢◌,
  refl, arith, eq_iff, Bool-cases, inl, inr, All, subst, sym,
}
use nemoclaw_lab_cl.Base.Dict.{get, keys, Distinct, contains}
use nemoclaw_lab_cl.Base.Http.{HttpError}
use nemoclaw_lab_cl.Base.Json.{Json}
use nemoclaw_lab_cl.Base.Text.{text}
use nemoclaw_lab_cl.Base.Text.Paths.{is_segment}
use nemoclaw_lab_cl.Models.{Timestamp}
use nemoclaw_lab_cl.Simulator.Engine.{SimulatorEngine, InjectedFault, asset_ids, get_fault}
use nemoclaw_lab_cl.Simulator.Generic
use nemoclaw_lab_cl.Simulator.Redfish
use nemoclaw_lab_cl.Simulator.Redfish.{
  systems_collection, system_url, system_json, log_entries_json,
}
use nemoclaw_lab_cl.McpTools.Adapters
use nemoclaw_lab_cl.McpTools.Adapters.Redfish.{list_assets, list_events}
use nemoclaw_lab_cl.McpTools.Adapters.Redfish.Agrees.{Serves, IsSegment, redfish_reports_generic}
use nemoclaw_lab_cl.McpTools.Adapters.Redfish.Events.{
  HasEntries, logged, redfish_events_generic, redfish_events_of_asset,
}

abbrev psu_fault : InjectedFault
psu_fault = record {
  scenario_id = "power";
  asset_id = "node-1";
  fault_type = "psu_failure";
  injected_at = 7;
  event_severity = "Critical";
  event_message_id = "PSU0003";
  log_entries = ("Critical", "PSU 2 lost") ∷ ("Warning", "Redundancy lost") ∷ [];
}

abbrev engine : SimulatorEngine
engine = record {
  scenarios = [];
  faults = ("node-1", some psu_fault) ∷ ("node-2", none) ∷ [];
  asset_types = ("node-1", "gpu_server") ∷ [];
}

abbrev epoch : Timestamp → String
epoch now = "1970-01-01T00:00:07+00:00"

abbrev not_found : Result HttpError Json
not_found = err (record { status_code = 404; detail = "Not Found" })

abbrev fetch : String → Result HttpError Json
fetch path =
    if path == "/redfish/v1/Systems"
    then ok (systems_collection engine)
    else if path == "/redfish/v1/EventService/Events"
    then ok (Redfish.list_events epoch engine)
    else if path == "/redfish/v1/Systems/node-1/LogServices/DCGM/Entries"
    then ok (log_entries_json epoch "node-1" engine)
    else if path == "/redfish/v1/Systems/node-1"
    then ok (system_json "node-1" engine)
    else if path == "/redfish/v1/Systems/node-2"
    then ok (system_json "node-2" engine)
    else not_found

served_node_1 : fetch (system_url "node-1") ≡ ok (system_json "node-1" engine)
unfolding system_url text
served_node_1 = refl

served_node_2 : fetch (system_url "node-2") ≡ ok (system_json "node-2" engine)
unfolding system_url text
served_node_2 = refl

Served : String → Type 0
Served aid = fetch (system_url aid) ≡ ok (system_json aid engine)

served : (aid : String) → elem aid (asset_ids engine) ≡ true → Served aid
unfolding Served asset_ids elem keys
served aid known = elim (Bool-cases (aid == "node-1")) [
  | inl first ↦ subst Served (sym ((eq_iff aid "node-1").0 first)) served_node_1
  | inr other ↦
      let second : (aid == "node-2") ≡ true = ground (arith, known, other) in
      subst Served (sym ((eq_iff aid "node-2").0 second)) served_node_2
]

fetch-Serves : Serves fetch engine
unfolding Served
fetch-Serves = record { systems = refl; system = λ aid segment known. served aid known }

engine-Distinct : Distinct engine.faults
unfolding contains
engine-Distinct = (refl, (refl, tt))

engine_segments : All IsSegment (asset_ids engine)
unfolding asset_ids keys is_segment
engine_segments = (refl, (refl, tt))

redfish_reports_generic_example :
    list_assets fetch ≡ Adapters.list_assets (Generic.list_assets engine)
redfish_reports_generic_example =
    redfish_reports_generic fetch engine fetch-Serves engine-Distinct engine_segments

entries : (aid : String) → HasEntries (get_fault aid engine)
unfolding get_fault get
entries aid = elim (Bool-cases ("node-1" == aid)) [
  | inl first ↦ rw first (("Critical", "PSU 2 lost"), ("Warning", "Redundancy lost") ∷ [], refl)
  | inr other ↦ elim (Bool-cases ("node-2" == aid)) [
    | inl second ↦ rw (other, second) tt
    | inr neither ↦ rw (other, neither) tt
  ]
]

redfish_events_generic_example :
    list_events fetch none ≡ ok (Adapters.list_events (Generic.list_events epoch "" engine))
redfish_events_generic_example = redfish_events_generic epoch fetch engine refl entries

node_1_named : ◌≢◌ {A = String} "node-1" ""
node_1_named e = absurd (ground (arith, (eq_iff "node-1" "").1 e))

redfish_events_of_asset_example :
    list_events fetch (some "node-1")
    ≡ ok (elim (get_fault "node-1" engine) [
      | none ↦ []
      | some fault ↦ map (logged epoch "node-1" fault) fault.log_entries
    ])
unfolding text
redfish_events_of_asset_example =
    redfish_events_of_asset epoch fetch engine "node-1" node_1_named refl
