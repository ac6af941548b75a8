-- ===== src/Gateway/Store/Invariant.antt =====
-- services/gateway/store.py: the invariant that ties the assets, the notifications and the fault
-- events of a store together, and which method keeps it.
use nemoclaw_lab_cl.Base.{
  String, Bool, true, false, none, some, List, [], ◌∷◌, not, is_some, ◌≡◌, refl, ◌∙◌, subst, inl,
  inr, Option-cases, arith, eq_iff,
}
use nemoclaw_lab_cl.Base.Dict.{Dict, get, put, contains, get-put, contains-put, Each, Each-put}
use nemoclaw_lab_cl.Models.{Timestamp, healthy, faulted, FaultEventStatus, FaultEvent, Notification}
use nemoclaw_lab_cl.Gateway.Sse.{Event}
use nemoclaw_lab_cl.Gateway.Store.{
  AssetRecord, GatewayStore, NewFault, Assignment, assign, assign_all, with_status,
  create_fault_event, update_found, update_fault_status, update_fault_fields, set_asset,
  create_notification, mark_found, mark_read, create_activity, set_pending_token, publish,
}

-- a healthy asset has no fault link, a faulted one links to a fault event that is there
abbrev pub is_linked : Dict FaultEvent → AssetRecord → Bool
is_linked faults a = elim a.state [
  | healthy ↦ not (is_some a.active_fault_event_id)
  | faulted ↦ elim a.active_fault_event_id [ none ↦ false | some f ↦ contains f faults ]
]

pub record IsConsistent (s : GatewayStore) : Type 0 where
  pub fault_key : (k : String) (e : FaultEvent) → get k s.fault_events ≡ some e → e.id ≡ k
  pub asset_key : Each (λ k a. a.id ≡ k) s.assets
  pub asset_link :
      (k : String) (a : AssetRecord) → get k s.assets ≡ some a → is_linked s.fault_events a ≡ true
  pub notified :
      (k : String) (n : Notification)
      → get k s.notifications ≡ some n
      → contains n.fault_event_id s.fault_events ≡ true

-- the same for the parts of a store that the events and the activity feed do not touch
pub IsConsistent-publish :
    {s : GatewayStore} (e : Event) → IsConsistent s → IsConsistent (publish e s)
unfolding publish
IsConsistent-publish e h = record {
  fault_key = h.fault_key;
  asset_key = h.asset_key;
  asset_link = h.asset_link;
  notified = h.notified;
}

pub IsConsistent-create_activity :
    {s : GatewayStore} (id : String) (now : Timestamp) (f step message : String)
    → IsConsistent s
    → IsConsistent (create_activity id now f step message s).1
unfolding create_activity
IsConsistent-create_activity id now f step message h = record {
  fault_key = h.fault_key;
  asset_key = h.asset_key;
  asset_link = h.asset_link;
  notified = h.notified;
}

pub IsConsistent-set_pending_token :
    {s : GatewayStore} (f token : String)
    → IsConsistent s
    → IsConsistent (set_pending_token f token s)
unfolding set_pending_token
IsConsistent-set_pending_token f token h = record {
  fault_key = h.fault_key;
  asset_key = h.asset_key;
  asset_link = h.asset_link;
  notified = h.notified;
}

contains-put_mono :
    (j k : String) (e : FaultEvent) (d : Dict FaultEvent)
    → contains j d ≡ true
    → contains j (put k e d) ≡ true
contains-put_mono j k e d h = ground (arith, contains-put k j e d)

is_linked_mono :
    (k : String) (e : FaultEvent) (d : Dict FaultEvent) (a : AssetRecord)
    → is_linked d a ≡ true
    → is_linked (put k e d) a ≡ true
is_linked_mono k e d a h = grind (arith, contains-put_mono)

-- writing a fault event under its own id keeps every link
IsConsistent-put_fault :
    {s : GatewayStore} (e : FaultEvent)
    → IsConsistent s
    → IsConsistent (record s { fault_events = put e.id e s.fault_events })
IsConsistent-put_fault {s} e h = record {
  fault_key =
      λ k x p. ground (arith, get-put e.id k e s.fault_events, eq_iff e.id k, h.fault_key k x);
  asset_key = h.asset_key;
  asset_link = λ k a p. is_linked_mono e.id e s.fault_events a (h.asset_link k a p);
  notified = λ k n p. contains-put_mono n.fault_event_id e.id e s.fault_events (h.notified k n p);
}

pub IsConsistent-create_fault_event :
    {s : GatewayStore} (id : String) (now : Timestamp) (n : NewFault)
    → IsConsistent s
    → IsConsistent (create_fault_event id now n s).1
unfolding create_fault_event
IsConsistent-create_fault_event {s} id now n h =
    IsConsistent-put_fault (create_fault_event id now n s).0 h

IsConsistent-update_found :
    {s : GatewayStore} (f : String) (change : FaultEvent → FaultEvent)
    → ((e : FaultEvent) → (change e).id ≡ e.id)
    → IsConsistent s
    → IsConsistent (update_found f change (get f s.fault_events) s).1
unfolding update_found
IsConsistent-update_found {s} f change same h = elim (Option-cases (get f s.fault_events)) [
  | inl e ↦ rw (e, update_found) h
  | inr (evt, e) ↦
      rw (e, update_found)
        (subst (λ k. IsConsistent (record s { fault_events = put k (change evt) s.fault_events }))
          (same evt ∙ h.fault_key f evt e) (IsConsistent-put_fault (change evt) h))
]

pub IsConsistent-update_fault_status :
    {s : GatewayStore} (f : String) (status : FaultEventStatus)
    → IsConsistent s
    → IsConsistent (update_fault_status f status s).1
unfolding update_fault_status
IsConsistent-update_fault_status f status h =
    IsConsistent-update_found f (with_status status) (λ e. refl) h

id-assign : (e : FaultEvent) (a : Assignment) → (assign e a).id ≡ e.id
unfolding assign
id-assign e (Assignment.error_signature x) = refl
id-assign e (Assignment.analysis x) = refl
id-assign e (Assignment.kb_article_id x) = refl
id-assign e (Assignment.kb_title x) = refl
id-assign e (Assignment.kb_score x) = refl

id-assign_all : (fields : List Assignment) (e : FaultEvent) → (assign_all fields e).id ≡ e.id
unfolding assign_all
id-assign_all [] e = refl
id-assign_all (a ∷ fields) e = id-assign_all fields (assign e a) ∙ id-assign e a

pub IsConsistent-update_fault_fields :
    {s : GatewayStore} (f : String) (fields : List Assignment)
    → IsConsistent s
    → IsConsistent (update_fault_fields f fields s).1
unfolding update_fault_fields
IsConsistent-update_fault_fields f fields h =
    IsConsistent-update_found f (assign_all fields) (id-assign_all fields) h

pub IsConsistent-set_asset :
    {s : GatewayStore} (a : AssetRecord)
    → is_linked s.fault_events a ≡ true
    → IsConsistent s
    → IsConsistent (set_asset a s)
unfolding set_asset
IsConsistent-set_asset {s} a linked h = record {
  fault_key = h.fault_key;
  asset_key = Each-put (λ k x. x.id ≡ k) a.id a s.assets refl h.asset_key;
  asset_link = λ k x p. ground (arith, get-put a.id k a s.assets, eq_iff a.id k, h.asset_link k x);
  notified = h.notified;
}

pub IsConsistent-create_notification :
    {s : GatewayStore} (id : String) (now : Timestamp) (f title body : String)
    → contains f s.fault_events ≡ true
    → IsConsistent s
    → IsConsistent (create_notification id now f title body s).1
unfolding create_notification
IsConsistent-create_notification {s} id now f title body known h = record {
  fault_key = h.fault_key;
  asset_key = h.asset_key;
  asset_link = h.asset_link;
  notified = λ k n p. ground (
    arith,
    get-put id k (create_notification id now f title body s).0 s.notifications,
    h.notified k n,
  );
}

pub IsConsistent-mark_read :
    {s : GatewayStore} (id : String) → IsConsistent s → IsConsistent (mark_read id s).1
unfolding mark_read
IsConsistent-mark_read {s} id h = elim (Option-cases (get id s.notifications)) [
  | inl e ↦ rw (e, mark_found) h
  | inr (n, e) ↦
      rw (e, mark_found)
        (record {
          fault_key = h.fault_key;
          asset_key = h.asset_key;
          asset_link = h.asset_link;
          notified = λ k x p. ground (
            arith,
            get-put id k (record n { read = true }) s.notifications,
            h.notified k x,
            h.notified id n e,
          );
        })
]
