-- ===== src/Gateway/Store/Branches.antt =====
-- services/gateway/store.py: the two branches of the methods that look an entry up first.
use nemoclaw_lab_cl.Base.{String, true, false, none, some, List, ◌≡◌, refl}
use nemoclaw_lab_cl.Base.Dict.{get, put}
use nemoclaw_lab_cl.Models.{FaultEvent, FaultEventStatus, Notification}
use nemoclaw_lab_cl.Gateway.Store.{
  GatewayStore, Assignment, with_status, assign_all, update_found, update_fault_status,
  update_fault_fields, mark_found, mark_read,
}

abbrev pub with_fault : String → FaultEvent → GatewayStore → GatewayStore
with_fault f evt s = record s { fault_events = put f evt s.fault_events }

module _ (f : String) (s : GatewayStore) where
  pub update_fault_status-some :
      (status : FaultEventStatus) (evt : FaultEvent)
      → get f s.fault_events ≡ some evt
      → update_fault_status f status s
        ≡ (some (with_status status evt), with_fault f (with_status status evt) s)
  unfolding update_fault_status update_found
  update_fault_status-some status evt e = rw (e, update_found) refl

  pub update_fault_status-none :
      (status : FaultEventStatus)
      → get f s.fault_events ≡ none
      → update_fault_status f status s ≡ (none, s)
  unfolding update_fault_status update_found
  update_fault_status-none status e = rw (e, update_found) refl

  pub update_fault_fields-some :
      (fields : List Assignment) (evt : FaultEvent)
      → get f s.fault_events ≡ some evt
      → update_fault_fields f fields s
        ≡ (some (assign_all fields evt), with_fault f (assign_all fields evt) s)
  unfolding update_fault_fields update_found
  update_fault_fields-some fields evt e = rw (e, update_found) refl

  pub update_fault_fields-none :
      (fields : List Assignment)
      → get f s.fault_events ≡ none
      → update_fault_fields f fields s ≡ (none, s)
  unfolding update_fault_fields update_found
  update_fault_fields-none fields e = rw (e, update_found) refl

  pub mark_read-some :
      (n : Notification)
      → get f s.notifications ≡ some n
      → mark_read f s
        ≡ (true, record s { notifications = put f (record n { read = true }) s.notifications })
  unfolding mark_read mark_found
  mark_read-some n e = rw (e, mark_found) refl

  pub mark_read-none : get f s.notifications ≡ none → mark_read f s ≡ (false, s)
  unfolding mark_read mark_found
  mark_read-none e = rw (e, mark_found) refl
