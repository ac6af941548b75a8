-- ===== src/McpTools/Adapters/Redfish/Events.antt =====
-- services/mcp_tools/adapters/redfish.py over services/simulator/surfaces/redfish.py: the events.
use nemoclaw_lab_cl.Base.{
  ℕ, suc, String, false, Option, none, some, List, [], ◌∷◌, map, ◌==◌, Result, ok, ◌≡◌, refl, ap,
  arith, eq_iff, ◌≢◌,
}
use nemoclaw_lab_cl.Base.Dict.{Dict, get}
use nemoclaw_lab_cl.Base.Http.{HttpError}
use nemoclaw_lab_cl.Base.Json.{Json, list, dict, fields, items, at, lookup, at_or, text_at, to_list}
use nemoclaw_lab_cl.Base.Text.{text}
use nemoclaw_lab_cl.Models.{Timestamp}
use nemoclaw_lab_cl.Simulator.Engine.{SimulatorEngine, InjectedFault, asset_ids, get_fault}
use nemoclaw_lab_cl.Simulator.Generic
use nemoclaw_lab_cl.Simulator.Redfish
use nemoclaw_lab_cl.Simulator.Redfish.{
  active_events, build_event, headline, log_entries_from, log_entries_json, log_entry_json,
  build_log_entry_members,
}
use nemoclaw_lab_cl.McpTools.Adapters
use nemoclaw_lab_cl.McpTools.Adapters.{MonitorEvent, event_of, get_or}
use nemoclaw_lab_cl.McpTools.Adapters.Redfish.{
  list_events, list_all_events, list_events_of, service_events, service_event, entry_event, list_at,
  text_or,
}
use nemoclaw_lab_cl.McpTools.Adapters.Redfish.Agrees.{list_at-collection}

-- one entry of a fault's log, as the adapter reports it
abbrev pub logged : (Timestamp → String) → String → InjectedFault → String × String → MonitorEvent
logged isoformat asset_id fault entry = record {
  asset_id = asset_id;
  severity = entry.0;
  message = entry.1;
  message_id = fault.event_message_id;
  ts = isoformat fault.injected_at;
}

-- the fault has log entries
abbrev pub HasEntries : Option InjectedFault → Type 0
HasEntries none = Unit
HasEntries (some fault) =
    (first : String × String) × (rest : List (String × String)) × (fault.log_entries ≡ first ∷ rest)

module _ (isoformat : Timestamp → String) where
  headline-HasEntries :
      (aid : String) (fault : InjectedFault)
      → HasEntries (some fault)
      → headline isoformat fault.log_entries ≡ Generic.first_message aid fault.log_entries
  unfolding headline Generic.first_message
  headline-HasEntries aid fault (first, rest, e) = rw e refl

  -- the event of one fault, in both surfaces
  same_event :
      (aid : String) (fault : InjectedFault)
      → HasEntries (some fault)
      → map (service_event aid) (list_at "Events" (build_event isoformat aid fault))
        ≡ event_of (Generic.event_json isoformat aid fault) ∷ []
  unfolding list_at build_event service_event event_of Generic.event_json text_or text_at at_or at
      lookup dict fields get get_or list items to_list
  same_event aid fault entries =
      ap
        (λ message.
          record {
            asset_id = aid;
            severity = fault.event_severity;
            message = message;
            message_id = fault.event_message_id;
            ts = isoformat fault.injected_at;
          }
          ∷ [])
        (headline-HasEntries aid fault entries)

  text_at-build_event :
      (aid : String) (fault : InjectedFault)
      → text_at "Id" (build_event isoformat aid fault) ≡ some aid
  unfolding build_event text_at at lookup dict fields
  text_at-build_event aid fault = refl

  same_events :
      (aid : String) (fault : Option InjectedFault) (members : List Json) (es : List (Dict String))
      → HasEntries fault
      → service_events members ≡ ok (Adapters.list_events es)
      → service_events (Redfish.event_before isoformat aid fault members)
        ≡ ok (Adapters.list_events (Generic.event_before isoformat aid fault es))
  unfolding service_events Adapters.list_events
  same_events aid none members es entries h = h
  same_events aid (some fault) members es entries h =
      rw (text_at-build_event aid fault, h, same_event aid fault entries) refl

  service_events-active_events :
      (e : SimulatorEngine) (ids : List String)
      → ((aid : String) → HasEntries (get_fault aid e))
      → service_events (active_events isoformat e ids)
        ≡ ok (Adapters.list_events (Generic.events_of isoformat e ids))
  unfolding active_events Generic.events_of service_events Adapters.list_events
  service_events-active_events e [] entries = refl
  service_events-active_events e (aid ∷ ids) entries =
      same_events aid (get_fault aid e) (active_events isoformat e ids)
        (Generic.events_of isoformat e ids) (entries aid)
        (service_events-active_events e ids entries)

  entry_event-log_entries_from :
      (aid : String) (fault : InjectedFault) (number : ℕ) (entries : List (String × String))
      → map (entry_event aid) (log_entries_from isoformat aid fault number entries)
        ≡ map (logged isoformat aid fault) entries
  unfolding log_entries_from log_entry_json entry_event text_or text_at at lookup dict fields
  entry_event-log_entries_from aid fault number [] = refl
  entry_event-log_entries_from aid fault number (entry ∷ entries) =
      ap (λ es. logged isoformat aid fault entry ∷ es)
        (entry_event-log_entries_from aid fault (suc number) entries)

  entry_event-members :
      (aid : String) (fault : Option InjectedFault)
      → map (entry_event aid) (build_log_entry_members isoformat aid fault)
        ≡ elim fault [ none ↦ [] | some f ↦ map (logged isoformat aid f) f.log_entries ]
  unfolding build_log_entry_members
  entry_event-members aid none = refl
  entry_event-members aid (some fault) = entry_event-log_entries_from aid fault 1 fault.log_entries

  module _ (fetch : String → Result HttpError Json) (e : SimulatorEngine) where
    -- When every active fault has log entries, the agent is told the same events through Redfish as
    -- through the generic surface.
    pub redfish_events_generic :
        fetch "/redfish/v1/EventService/Events" ≡ ok (Redfish.list_events isoformat e)
        → ((aid : String) → HasEntries (get_fault aid e))
        → list_events fetch none ≡ ok (Adapters.list_events (Generic.list_events isoformat "" e))
    unfolding list_events list_all_events Redfish.list_events Generic.list_events
    redfish_events_generic serves entries =
        rw (serves, list_at-collection _ _ _ (active_events isoformat e (asset_ids e)))
          (service_events-active_events e (asset_ids e) entries)

    -- For one asset Redfish reports every log entry of its fault, in order, and nothing for an asset
    -- without a fault.
    pub redfish_events_of_asset :
        (aid : String)
        → aid ≢ ""
        → fetch (text ("/redfish/v1/Systems/" ∷ aid ∷ "/LogServices/DCGM/Entries" ∷ []))
          ≡ ok (log_entries_json isoformat aid e)
        → list_events fetch (some aid)
          ≡ ok (elim (get_fault aid e) [
            | none ↦ []
            | some fault ↦ map (logged isoformat aid fault) fault.log_entries
          ])
    unfolding list_events list_events_of log_entries_json
    redfish_events_of_asset aid named serves =
        let apart : (aid == "") ≡ false = ground (arith, eq_iff aid "", named) in
        rw
          (
            apart,
            serves,
            list_at-collection _ _ _ (build_log_entry_members isoformat aid (get_fault aid e)),
            entry_event-members aid (get_fault aid e),
          )
          refl
