-- ===== src/Simulator/Generic.antt =====
-- services/simulator/surfaces/generic.py: what the simulator shows of its assets. A JSON object of
-- texts is a `Dict String`.
use nemoclaw_lab_cl.Base.{
  String, Option, none, some, List, [], ◌∷◌, map, ◌==◌, Result, ok, err, if◌then◌else◌,
}
use nemoclaw_lab_cl.Base.Dict.{Dict, get}
use nemoclaw_lab_cl.Base.Http.{HttpError}
use nemoclaw_lab_cl.Base.Text.{text}
use nemoclaw_lab_cl.Models.{Timestamp}
use nemoclaw_lab_cl.Simulator.Engine
use nemoclaw_lab_cl.Simulator.Engine.{InjectedFault, SimulatorEngine}

unfoldable pub asset_json : SimulatorEngine → String × String → Dict String
asset_json e (aid, state) = ("id", aid) ∷ ("type", Engine.asset_type aid e) ∷ ("state", state) ∷ []

unfoldable pub list_assets : SimulatorEngine → List (Dict String)
unfolding asset_json
list_assets e = map (asset_json e) (Engine.all_states e)

asset_answer :
    (String → String) → String → Option String → SimulatorEngine → Result HttpError (Dict String)
asset_answer repr asset_id none e =
    err (record { status_code = 404; detail = text ("Asset not found: " ∷ repr asset_id ∷ []) })
asset_answer repr asset_id (some state) e = ok (asset_json e (asset_id, state))

unfoldable pub get_asset :
    (String → String) → String → SimulatorEngine → Result HttpError (Dict String)
unfolding asset_answer asset_json
get_asset repr asset_id e = asset_answer repr asset_id (get asset_id (Engine.all_states e)) e

unfoldable pub first_message : String → List (String × String) → String
first_message aid [] = text ("Fault on " ∷ aid ∷ [])
first_message aid ((severity, message) ∷ entries) = message

unfoldable pub event_json : (Timestamp → String) → String → InjectedFault → Dict String
unfolding first_message
event_json isoformat aid fault =
    ("asset_id", aid)
    ∷ ("severity", fault.event_severity)
    ∷ ("message", first_message aid fault.log_entries)
    ∷ ("message_id", fault.event_message_id)
    ∷ ("ts", isoformat fault.injected_at)
    ∷ []

abbrev pub event_before :
    (Timestamp → String) → String → Option InjectedFault → List (Dict String) → List (Dict String)
event_before isoformat aid none rest = rest
event_before isoformat aid (some fault) rest = event_json isoformat aid fault ∷ rest

unfoldable pub events_of : (Timestamp → String) → SimulatorEngine → List String → List (Dict String)
unfolding event_json
events_of isoformat e [] = []
events_of isoformat e (aid ∷ aids) =
    event_before isoformat aid (Engine.get_fault aid e) (events_of isoformat e aids)

-- `asset_id` is "" when the query does not name one
unfoldable pub list_events : (Timestamp → String) → String → SimulatorEngine → List (Dict String)
unfolding events_of event_json
list_events isoformat asset_id e =
    events_of isoformat e (if asset_id == "" then Engine.asset_ids e else asset_id ∷ [])
