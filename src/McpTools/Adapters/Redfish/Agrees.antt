-- ===== src/McpTools/Adapters/Redfish/Agrees.antt =====
-- services/mcp_tools/adapters/redfish.py over services/simulator/surfaces/redfish.py, beside the
-- generic adapter over the generic surface.
use package.text.Mathlib.TextLemmas.{append-nil}
use nemoclaw_lab_cl.Base.{
  String, true, false, Option, none, some, List, [], ◌∷◌, map, ◌==◌, Result, ok, if◌then◌else◌, ◌≡◌,
  refl, ap, arith, eq_refl, eq_iff, elem, All,
}
use nemoclaw_lab_cl.Base.Dict.{Dict, get, keys, contains, Distinct}
use nemoclaw_lab_cl.Base.Http.{HttpError}
use nemoclaw_lab_cl.Base.Json.{Json, list, dict, fields, at, lookup, at_or, text_at, to_list-items}
use nemoclaw_lab_cl.Base.Text.{text}
use nemoclaw_lab_cl.Base.Text.Paths.{is_segment, after_last_slash-path}
use nemoclaw_lab_cl.Simulator.Engine.{
  SimulatorEngine, InjectedFault, asset_ids, get_fault, flat, asset_type, state_of,
}
use nemoclaw_lab_cl.Simulator.Generic
use nemoclaw_lab_cl.Simulator.Redfish.{
  systems_collection, system_link, system_url, system_json, collection, health_of,
}
use nemoclaw_lab_cl.McpTools.Adapters
use nemoclaw_lab_cl.McpTools.Adapters.{MonitorAsset}
use nemoclaw_lab_cl.McpTools.Adapters.Reports.{shown, adapter_reports_engine}
use nemoclaw_lab_cl.McpTools.Adapters.Redfish.{
  read_member, read_members, list_assets, asset_of, list_at, text_or, last_segment,
}

-- What the simulator answers to the adapter. A path parameter takes one segment of a path.
pub record Serves (fetch : String → Result HttpError Json) (e : SimulatorEngine) : Type 0 where
  pub systems : fetch "/redfish/v1/Systems" ≡ ok (systems_collection e)
  pub system :
      (aid : String)
      → is_segment aid ≡ true
      → elem aid (asset_ids e) ≡ true
      → fetch (system_url aid) ≡ ok (system_json aid e)

abbrev pub IsSegment : String → Type 0
IsSegment aid = is_segment aid ≡ true

last_segment-system_url : (aid : String) → IsSegment aid → last_segment (system_url aid) ≡ aid
unfolding last_segment system_url text
last_segment-system_url aid h =
    rw (append-nil aid) (after_last_slash-path "/redfish/v1/Systems" aid h)

pub list_at-collection :
    (type id name : String) (members : List Json)
    → list_at "Members" (collection type id name members) ≡ members
unfolding list_at at_or at lookup collection dict fields list
list_at-collection type id name members = to_list-items members

-- what a system says of its health, read back
abbrev state_read : String → String
state_read health = if health == "OK" then "healthy" else "faulted"

state_read-health_of :
    (fault : Option InjectedFault) → state_read (health_of fault) ≡ state_of fault
state_read-health_of none = refl
state_read-health_of (some fault) = refl

asset_of-system_json :
    (aid : String) (e : SimulatorEngine)
    → asset_of aid (system_json aid e) ≡ shown e (aid, get_fault aid e)
unfolding asset_of system_json text_or text_at at_or at lookup dict fields
asset_of-system_json aid e =
    ap (λ state. record { id = aid; type = asset_type aid e; state = state })
      (state_read-health_of (get_fault aid e))

text_at-system_link : (aid : String) → text_at "@odata.id" (system_link aid) ≡ some (system_url aid)
unfolding system_link text_at at lookup dict fields
text_at-system_link aid = refl

elem-keys : {V : Type 0} (k : String) (d : Dict V) → elem k (keys d) ≡ contains k d
unfolding elem keys contains
elem-keys k [] = refl
elem-keys k ((j, v) ∷ d) = ground (arith, eq_iff k j, eq_iff j k, elem-keys k d)

module _ (fetch : String → Result HttpError Json) (e : SimulatorEngine)
    (serves : Serves fetch e) where
  read_member-system_link :
      (aid : String)
      → IsSegment aid
      → elem aid (asset_ids e) ≡ true
      → read_member fetch (system_link aid) ≡ ok (shown e (aid, get_fault aid e))
  unfolding read_member
  read_member-system_link aid segment known =
      rw
        (
          text_at-system_link aid,
          serves.system aid segment known,
          last_segment-system_url aid segment,
          asset_of-system_json aid e,
        )
        refl

  -- the engine holds these entries
  abbrev Holds : Dict (Option InjectedFault) → Type 0
  Holds d =
      (aid : String)
      → contains aid d ≡ true
      → (get_fault aid e ≡ flat (get aid d)) × (elem aid (asset_ids e) ≡ true)

  Holds-tail :
      (aid : String) (fault : Option InjectedFault) (d : Dict (Option InjectedFault))
      → contains aid d ≡ false
      → Holds ((aid, fault) ∷ d)
      → Holds d
  unfolding contains get
  Holds-tail aid fault d fresh holds j there =
      let apart : (aid == j) ≡ false = ground (arith, eq_iff aid j, fresh, there) in
      let (same, known) = holds j (rw apart there) in (ground (arith, same, apart), known)

  Holds-head :
      (aid : String) (fault : Option InjectedFault) (d : Dict (Option InjectedFault))
      → Holds ((aid, fault) ∷ d)
      → (get_fault aid e ≡ fault) × (elem aid (asset_ids e) ≡ true)
  unfolding contains get
  Holds-head aid fault d holds =
      let (same, known) = holds aid (rw (eq_refl aid) refl) in
      (ground (arith, same, eq_refl aid), known)

  read_members-keys :
      (d : Dict (Option InjectedFault))
      → Distinct d
      → Holds d
      → All IsSegment (keys d)
      → read_members fetch (map system_link (keys d)) ≡ ok (map (shown e) d)
  unfolding read_members keys
  read_members-keys [] distinct holds segments = refl
  read_members-keys ((aid, fault) ∷ d) (fresh, distinct) holds (segment, segments) =
      let (same, known) = Holds-head aid fault d holds in
      rw
        (
          read_member-system_link aid segment known,
          same,
          read_members-keys d distinct (Holds-tail aid fault d fresh holds) segments,
        )
        refl

  Holds-faults : Holds e.faults
  unfolding get_fault asset_ids
  Holds-faults aid there = (refl, ground (arith, elem-keys aid e.faults, there))

  -- Through Redfish the agent is told the same list of assets, types and states as through the
  -- generic surface, for asset ids that a path can hold.
  pub redfish_reports_generic :
      Distinct e.faults
      → All IsSegment (asset_ids e)
      → list_assets fetch ≡ Adapters.list_assets (Generic.list_assets e)
  unfolding list_assets systems_collection asset_ids
  redfish_reports_generic distinct segments =
      rw
        (
          serves.systems,
          list_at-collection _ _ _ (map system_link (keys e.faults)),
          adapter_reports_engine e,
        )
        (read_members-keys e.faults distinct Holds-faults segments)
