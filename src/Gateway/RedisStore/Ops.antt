-- ===== src/Gateway/RedisStore/Ops.antt =====
-- services/gateway/redis_store.py and store.py: the interface that both stores implement, as
-- operations and their answers.
use nemoclaw_lab_cl.Base.{ℕ, String, Bool, Option, List, [], ◌∷◌, Result, ok, err}
use nemoclaw_lab_cl.Models.{Timestamp, FaultEvent, FaultEventStatus, Notification, ActivityEvent}
use nemoclaw_lab_cl.Gateway.Store
use nemoclaw_lab_cl.Gateway.Store.{GatewayStore, AssetRecord, NewFault, Assignment}
use nemoclaw_lab_cl.Gateway.RedisStore
use nemoclaw_lab_cl.Gateway.RedisStore.{Redis, Wire, Corrupt}
use nemoclaw_lab_cl.Gateway.RedisStore.Shows.{sum}

-- A list whose order the server does not fix is seen through a weight: the sum over its items.
pub data Op : Type 0 where
  create_fault_event : String → Timestamp → NewFault → Op
  update_fault_status : String → FaultEventStatus → Op
  update_fault_fields : String → List Assignment → Op
  list_faults : (FaultEvent → ℕ) → Op
  get_fault has_fault : String → Op
  list_assets : (AssetRecord → ℕ) → Op
  get_asset has_asset : String → Op
  set_asset : AssetRecord → Op
  create_notification : String → Timestamp → String → String → String → Op
  mark_read : String → Op
  list_notifications : (Notification → ℕ) → Op
  create_activity : String → Timestamp → String → String → String → Op
  list_activity_events : Op
  set_pending_token : String → String → Op
  get_pending_token : String → Op

pub data Answer : Type 0 where
  event : FaultEvent → Answer
  event_or_none : Option FaultEvent → Answer
  asset_or_none : Option AssetRecord → Answer
  notification : Notification → Answer
  activity : ActivityEvent → Answer
  feed : List ActivityEvent → Answer
  token_or_none : Option String → Answer
  flag : Bool → Answer
  count : ℕ → Answer
  done : Answer

abbrev pub answered {ℓ} : {A : Type ℓ} {S : Type ℓ} → (A → Answer) → A × S → Answer × S
answered f (a, s) = (f a, s)

unfoldable pub in_memory : Op → GatewayStore → Answer × GatewayStore
in_memory (create_fault_event id now n) m = answered event (Store.create_fault_event id now n m)
in_memory (update_fault_status f st) m = answered event_or_none (Store.update_fault_status f st m)
in_memory (update_fault_fields f fs) m = answered event_or_none (Store.update_fault_fields f fs m)
in_memory (list_faults weight) m = (count (sum weight (Store.list_faults m)), m)
in_memory (get_fault f) m = (event_or_none (Store.get_fault f m), m)
in_memory (has_fault f) m = (flag (Store.has_fault f m), m)
in_memory (list_assets weight) m = (count (sum weight (Store.list_assets m)), m)
in_memory (get_asset a) m = (asset_or_none (Store.get_asset a m), m)
in_memory (has_asset a) m = (flag (Store.has_asset a m), m)
in_memory (set_asset a) m = (done, Store.set_asset a m)
in_memory (create_notification id now f title body) m =
    answered notification (Store.create_notification id now f title body m)
in_memory (mark_read id) m = answered flag (Store.mark_read id m)
in_memory (list_notifications weight) m = (count (sum weight (Store.list_notifications m)), m)
in_memory (create_activity id now f step message) m =
    answered activity (Store.create_activity id now f step message m)
in_memory list_activity_events m = (feed (Store.list_activity_events m), m)
in_memory (set_pending_token f t) m = (done, Store.set_pending_token f t m)
in_memory (get_pending_token f) m = (token_or_none (Store.get_pending_token f m), m)

abbrev pub map_ok {ℓ} : {A B : Type ℓ} {E : Type ℓ} → (A → B) → Result E A → Result E B
map_ok f (ok a) = ok (f a)
map_ok f (err e) = err e

module _ (w : Wire) (r : Redis w.Text) (prefix : String) where
  abbrev pub Replied : Type 0
  Replied = Result Corrupt Answer × r.Server

  abbrev pub loaded : {A : Type 0} → (A → Answer) → Result Corrupt A × r.Server → Replied
  loaded f (x, s) = (map_ok f x, s)

  unfoldable pub on_redis : Op → r.Server → Replied
  on_redis (create_fault_event id now n) s =
      let (evt, s') = RedisStore.create_fault_event w r prefix id now n s in (ok (event evt), s')
  on_redis (update_fault_status f st) s =
      loaded event_or_none (RedisStore.update_fault_status w r prefix f st s)
  on_redis (update_fault_fields f fs) s =
      loaded event_or_none (RedisStore.update_fault_fields w r prefix f fs s)
  on_redis (list_faults weight) s =
      (map_ok (λ xs. count (sum weight xs)) (RedisStore.list_faults w r prefix s), s)
  on_redis (get_fault f) s = (map_ok event_or_none (RedisStore.get_fault w r prefix f s), s)
  on_redis (has_fault f) s = (ok (flag (RedisStore.has_fault w r prefix f s)), s)
  on_redis (list_assets weight) s =
      (map_ok (λ xs. count (sum weight xs)) (RedisStore.list_assets w r prefix s), s)
  on_redis (get_asset a) s = (map_ok asset_or_none (RedisStore.get_asset w r prefix a s), s)
  on_redis (has_asset a) s = (ok (flag (RedisStore.has_asset w r prefix a s)), s)
  on_redis (set_asset a) s = (ok done, RedisStore.set_asset w r prefix a s)
  on_redis (create_notification id now f title body) s =
      let (n, s') = RedisStore.create_notification w r prefix id now f title body s in
      (ok (notification n), s')
  on_redis (mark_read id) s = loaded flag (RedisStore.mark_read w r prefix id s)
  on_redis (list_notifications weight) s =
      (map_ok (λ xs. count (sum weight xs)) (RedisStore.list_notifications w r prefix s), s)
  on_redis (create_activity id now f step message) s =
      let (evt, s') = RedisStore.create_activity w r prefix id now f step message s in
      (ok (activity evt), s')
  on_redis list_activity_events s = (map_ok feed (RedisStore.list_activity_events w r prefix s), s)
  on_redis (set_pending_token f t) s = (ok done, RedisStore.set_pending_token w r prefix f t s)
  on_redis (get_pending_token f) s =
      (ok (token_or_none (RedisStore.get_pending_token w r prefix f s)), s)

  -- the answers of a sequence of operations
  unfoldable pub replies : List Op → r.Server → List (Result Corrupt Answer)
  replies [] s = []
  replies (op ∷ ops) s = (on_redis op s).0 ∷ replies ops (on_redis op s).1

unfoldable pub answers : List Op → GatewayStore → List Answer
answers [] m = []
answers (op ∷ ops) m = (in_memory op m).0 ∷ answers ops (in_memory op m).1
