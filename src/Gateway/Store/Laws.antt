-- ===== src/Gateway/Store/Laws.antt =====
-- services/gateway/store.py: what the updates of a fault event change, and what they leave alone.
use mathlib.Core.Option
use nemoclaw_lab_cl.Base.{
  String, Option, List, ◌==◌, if◌then◌else◌, ◌≡◌, refl, arith, eq_iff, Option-cases, inl, inr,
}
use nemoclaw_lab_cl.Base.Dict.{get, get-put}
use nemoclaw_lab_cl.Models.{FaultEventStatus, FaultEvent}
use nemoclaw_lab_cl.Gateway.Store.{
  GatewayStore, Assignment, with_status, assign_all, update_found, update_fault_status,
  update_fault_fields, get_fault,
}

-- `s'` is `s` but for the fault events
pub record SameButFaults (s s' : GatewayStore) : Type 0 where
  pub notifications : s'.notifications ≡ s.notifications
  pub activity_events : s'.activity_events ≡ s.activity_events
  pub assets : s'.assets ≡ s.assets
  pub pending_tokens : s'.pending_tokens ≡ s.pending_tokens
  pub sse : s'.sse ≡ s.sse

module _ (f : String) (change : FaultEvent → FaultEvent) (s : GatewayStore) where
  abbrev written : Option FaultEvent × GatewayStore
  written = update_found f change (get f s.fault_events) s

  result-update_found : written.0 ≡ Option.map change (get f s.fault_events)
  unfolding update_found
  result-update_found = ground arith

  get-update_found :
      (j : String)
      → get j written.1.fault_events
        ≡ (if f == j then Option.map change (get j s.fault_events) else get j s.fault_events)
  unfolding update_found
  get-update_found j = elim (Option-cases (get f s.fault_events)) [
    | inl e ↦ rw (e, update_found) (ground (arith, eq_iff f j, e))
    | inr (evt, e) ↦
        rw (e, update_found)
          (ground (arith, eq_iff f j, e, get-put f j (change evt) s.fault_events))
  ]

  rest-update_found : SameButFaults s written.1
  unfolding update_found
  rest-update_found = elim (Option-cases (get f s.fault_events)) [
    | inl e ↦
        rw (e, update_found)
          (record {
            notifications = refl;
            activity_events = refl;
            assets = refl;
            pending_tokens = refl;
            sse = refl;
          })
    | inr (evt, e) ↦
        rw (e, update_found)
          (record {
            notifications = refl;
            activity_events = refl;
            assets = refl;
            pending_tokens = refl;
            sse = refl;
          })
  ]

module _ (f : String) (status : FaultEventStatus) (s : GatewayStore) where
  pub result-update_fault_status :
      (update_fault_status f status s).0 ≡ Option.map (with_status status) (get_fault f s)
  unfolding update_fault_status get_fault
  result-update_fault_status = result-update_found f (with_status status) s

  pub get_fault-update_fault_status :
      (j : String)
      → get_fault j (update_fault_status f status s).1
        ≡ (if f == j then Option.map (with_status status) (get_fault j s) else get_fault j s)
  unfolding update_fault_status get_fault
  get_fault-update_fault_status j = get-update_found f (with_status status) s j

  pub rest-update_fault_status : SameButFaults s (update_fault_status f status s).1
  unfolding update_fault_status
  rest-update_fault_status = rest-update_found f (with_status status) s

module _ (f : String) (fields : List Assignment) (s : GatewayStore) where
  pub get_fault-update_fault_fields :
      (j : String)
      → get_fault j (update_fault_fields f fields s).1
        ≡ (if f == j then Option.map (assign_all fields) (get_fault j s) else get_fault j s)
  unfolding update_fault_fields get_fault
  get_fault-update_fault_fields j = get-update_found f (assign_all fields) s j

  pub rest-update_fault_fields : SameButFaults s (update_fault_fields f fields s).1
  unfolding update_fault_fields
  rest-update_fault_fields = rest-update_found f (assign_all fields) s
