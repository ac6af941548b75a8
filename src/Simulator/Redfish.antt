-- ===== src/Simulator/Redfish.antt =====
-- services/simulator/surfaces/redfish.py: the Redfish documents of the simulated assets.
pub mod Power
use nemoclaw_lab_cl.Base.{
  ℕ, suc, String, Bool, true, false, Option, none, some, List, [], ◌∷◌, map, length, elem, ◌==◌,
  if◌then◌else◌, Result, ok, err, ◌>>◌, guard, is_some,
}
use nemoclaw_lab_cl.Base.Http.{HttpError}
use nemoclaw_lab_cl.Base.Json.{Json, str, num, dict, list}
use nemoclaw_lab_cl.Base.Text.{text, decimal}
use nemoclaw_lab_cl.Models.{Timestamp}
use nemoclaw_lab_cl.Simulator.Engine.{
  InjectedFault, SimulatorEngine, asset_ids, asset_type, get_fault,
}

abbrev pub Reply : Type 0
Reply = Result HttpError Json

-- `{"@odata.id": url}`
unfoldable pub link : List String → Json
link parts = dict (("@odata.id", str (text parts)) ∷ [])

unfoldable pub system_url : String → String
system_url asset_id = text ("/redfish/v1/Systems/" ∷ asset_id ∷ [])

unfoldable pub require_asset :
    (String → String) → String → SimulatorEngine → Result HttpError (Unit {0})
require_asset repr asset_id e =
    guard (elem asset_id (asset_ids e))
      (record { status_code = 404; detail = text ("Asset not found: " ∷ repr asset_id ∷ []) })

unfoldable pub service_root : Json
unfolding link
service_root = dict (
    ("@odata.type", str "#ServiceRoot.v1_5_0.ServiceRoot")
    ∷ ("@odata.id", str "/redfish/v1/")
    ∷ ("Id", str "RootService")
    ∷ ("Name", str "Root Service")
    ∷ ("RedfishVersion", str "1.13.0")
    ∷ ("Systems", link ("/redfish/v1/Systems" ∷ []))
    ∷ ("Chassis", link ("/redfish/v1/Chassis" ∷ []))
    ∷ ("EventService", link ("/redfish/v1/EventService" ∷ []))
    ∷ [])

unfoldable pub collection : String → String → String → List Json → Json
collection type id name members = dict (
    ("@odata.type", str type)
    ∷ ("@odata.id", str id)
    ∷ ("Name", str name)
    ∷ ("Members", list members)
    ∷ ("Members@odata.count", num (length members))
    ∷ [])

unfoldable pub system_link : String → Json
system_link aid = dict (("@odata.id", str (system_url aid)) ∷ [])

unfoldable pub systems_collection : SimulatorEngine → Json
unfolding collection system_link system_url
systems_collection e =
    collection "#ComputerSystemCollection.ComputerSystemCollection" "/redfish/v1/Systems"
      "Computer System Collection" (map system_link (asset_ids e))

abbrev pub health_of : Option InjectedFault → String
health_of none = "OK"
health_of (some fault) = "Critical"

unfoldable pub system_json : String → SimulatorEngine → Json
unfolding link system_url
system_json asset_id e =
    let health = health_of (get_fault asset_id e) in
    dict (
      ("@odata.type", str "#ComputerSystem.v1_13_0.ComputerSystem")
      ∷ ("@odata.id", str (system_url asset_id))
      ∷ ("Id", str asset_id)
      ∷ ("Name", str asset_id)
      ∷ ("SystemType", str (asset_type asset_id e))
      ∷ (
        "Status",
        dict
            (("State", str "Enabled") ∷ ("Health", str health) ∷ ("HealthRollup", str health) ∷ []),
      )
      ∷ ("LogServices", link (system_url asset_id ∷ "/LogServices" ∷ []))
      ∷ [])

unfoldable pub get_system : (String → String) → String → SimulatorEngine → Reply
unfolding require_asset system_json link
get_system repr asset_id e = require_asset repr asset_id e >> ok (system_json asset_id e)

unfoldable pub log_services_collection : (String → String) → String → SimulatorEngine → Reply
unfolding require_asset link system_url
log_services_collection repr asset_id e =
    require_asset repr asset_id e
    >> ok (
        dict (
          ("@odata.type", str "#LogServiceCollection.LogServiceCollection")
          ∷ ("@odata.id", str (text (system_url asset_id ∷ "/LogServices" ∷ [])))
          ∷ ("Name", str "Log Service Collection")
          ∷ ("Members", list (link (system_url asset_id ∷ "/LogServices/DCGM" ∷ []) ∷ []))
          ∷ ("Members@odata.count", num 1)
          ∷ []))

unfoldable pub dcgm_log_service : (String → String) → String → SimulatorEngine → Reply
unfolding require_asset link system_url
dcgm_log_service repr asset_id e =
    require_asset repr asset_id e
    >> ok (
        dict (
          ("@odata.type", str "#LogService.v1_2_0.LogService")
          ∷ ("@odata.id", str (text (system_url asset_id ∷ "/LogServices/DCGM" ∷ [])))
          ∷ ("Id", str "DCGM")
          ∷ ("Name", str "DCGM Log Service")
          ∷ ("Description", str "NVIDIA Data Center GPU Manager event log")
          ∷ ("Entries", link (system_url asset_id ∷ "/LogServices/DCGM/Entries" ∷ []))
          ∷ []))

module _ (isoformat : Timestamp → String) where
  unfoldable pub log_entry_json : String → InjectedFault → ℕ → String × String → Json
  log_entry_json asset_id fault number entry = dict (
      ("@odata.type", str "#LogEntry.v1_9_0.LogEntry")
      ∷ (
        "@odata.id",
        str (text (system_url asset_id ∷ "/LogServices/DCGM/Entries/" ∷ decimal number ∷ [])),
      )
      ∷ ("Id", str (decimal number))
      ∷ ("Name", str "Log Entry")
      ∷ ("EntryType", str "Event")
      ∷ ("Severity", str entry.0)
      ∷ ("Message", str entry.1)
      ∷ ("MessageId", str fault.event_message_id)
      ∷ ("Created", str (isoformat fault.injected_at))
      ∷ [])

  -- the loop of `_build_log_entry_members`, from the entry with this number on
  unfoldable pub log_entries_from : String → InjectedFault → ℕ → List (String × String) → List Json
  unfolding log_entry_json
  log_entries_from asset_id fault number [] = []
  log_entries_from asset_id fault number (entry ∷ entries) =
      log_entry_json asset_id fault number entry
      ∷ log_entries_from asset_id fault (suc number) entries

  unfoldable pub build_log_entry_members : String → Option InjectedFault → List Json
  unfolding log_entries_from
  build_log_entry_members asset_id none = []
  build_log_entry_members asset_id (some fault) =
      log_entries_from asset_id fault 1 fault.log_entries

  unfoldable pub log_entries_json : String → SimulatorEngine → Json
  unfolding collection build_log_entry_members system_url
  log_entries_json asset_id e =
      collection "#LogEntryCollection.LogEntryCollection"
        (text (system_url asset_id ∷ "/LogServices/DCGM/Entries" ∷ [])) "Log Entry Collection"
        (build_log_entry_members asset_id (get_fault asset_id e))

  unfoldable pub dcgm_log_entries : (String → String) → String → SimulatorEngine → Reply
  unfolding require_asset log_entries_json
  dcgm_log_entries repr asset_id e =
      require_asset repr asset_id e >> ok (log_entries_json asset_id e)

  -- `fault.log_entries[0][1] if fault.log_entries else ""`
  unfoldable pub headline : List (String × String) → String
  headline [] = ""
  headline ((severity, message) ∷ entries) = message

  unfoldable pub build_event : String → InjectedFault → Json
  unfolding headline system_link
  build_event asset_id fault = dict (
      ("@odata.type", str "#Event.v1_7_0.Event")
      ∷ ("@odata.id", str (text ("/redfish/v1/EventService/Events/" ∷ asset_id ∷ [])))
      ∷ ("Id", str asset_id)
      ∷ ("Name", str "Alert Event")
      ∷ (
        "Events",
        list (
            dict (
              ("EventType", str "Alert")
              ∷ ("EventTimestamp", str (isoformat fault.injected_at))
              ∷ ("Severity", str fault.event_severity)
              ∷ ("MessageId", str fault.event_message_id)
              ∷ ("Message", str (headline fault.log_entries))
              ∷ ("MemberId", str asset_id)
              ∷ ("OriginOfCondition", system_link asset_id)
              ∷ [])
            ∷ []),
      )
      ∷ [])

  abbrev pub event_before : String → Option InjectedFault → List Json → List Json
  event_before asset_id none rest = rest
  event_before asset_id (some fault) rest = build_event asset_id fault ∷ rest

  -- the loop of `list_events`
  unfoldable pub active_events : SimulatorEngine → List String → List Json
  unfolding build_event
  active_events e [] = []
  active_events e (asset_id ∷ ids) =
      event_before asset_id (get_fault asset_id e) (active_events e ids)

  unfoldable pub list_events : SimulatorEngine → Json
  unfolding collection active_events
  list_events e =
      collection "#EventCollection.EventCollection" "/redfish/v1/EventService/Events"
        "Event Collection" (active_events e (asset_ids e))

unfoldable pub event_service : Json
unfolding link
event_service = dict (
    ("@odata.type", str "#EventService.v1_7_0.EventService")
    ∷ ("@odata.id", str "/redfish/v1/EventService")
    ∷ ("Id", str "EventService")
    ∷ ("Name", str "Event Service")
    ∷ ("Status", dict (("State", str "Enabled") ∷ ("Health", str "OK") ∷ []))
    ∷ ("Events", link ("/redfish/v1/EventService/Events" ∷ []))
    ∷ [])
