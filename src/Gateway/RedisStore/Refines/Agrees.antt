-- ===== src/Gateway/RedisStore/Refines/Agrees.antt =====
-- services/gateway/redis_store.py beside services/gateway/store.py: every operation answers the same
-- and keeps the two stores in step.
use nemoclaw_lab_cl.Base.{String, true, none, some, List, ok, ◌≡◌, refl, ap, Option-cases, inl, inr}
use nemoclaw_lab_cl.Base.Dict.{get}
use nemoclaw_lab_cl.Models.{FaultEvent, FaultEventStatus}
use nemoclaw_lab_cl.Gateway.Store
use nemoclaw_lab_cl.Gateway.Store.{GatewayStore, AssetRecord, with_status, assign_all}
use nemoclaw_lab_cl.Gateway.Store.Branches.{
  update_fault_status-some, update_fault_status-none, update_fault_fields-some,
  update_fault_fields-none, mark_read-some, mark_read-none,
}
use nemoclaw_lab_cl.Gateway.RedisStore
use nemoclaw_lab_cl.Gateway.RedisStore.{
  Redis, Wire, Codec, Corrupt, corrupt, key, asset_json, load_each, load_some, load_list,
  load_asset, update_loaded, mark_loaded, unraw_token,
}
use nemoclaw_lab_cl.Gateway.RedisStore.Refines.{
  Refines, put_fault, put_asset, put_notification, put_token, push_activity, dump_asset,
  load_asset-dump,
}
use nemoclaw_lab_cl.Gateway.RedisStore.Ops.{
  Op, create_fault_event, update_fault_status, update_fault_fields, list_faults, get_fault,
  has_fault, list_assets, get_asset, has_asset, set_asset, create_notification, mark_read,
  list_notifications, create_activity, list_activity_events, set_pending_token, get_pending_token,
  token_or_none, on_redis, in_memory,
}
use nemoclaw_lab_cl.Gateway.RedisStore.Refines.Reads.{
  load_list-map, load_some-dump, unraw-token, hexists-contains, sum-hgetall,
}

module _ (w : Wire) (r : Redis w.Text) (prefix : String) where
  -- what an operation leaves of the two stores, and its two answers
  abbrev Agrees : Op → r.Server → GatewayStore → Type 0
  Agrees op s m =
      ((on_redis w r prefix op s).0 ≡ ok (in_memory op m).0)
      × Refines w r prefix (on_redis w r prefix op s).1 (in_memory op m).1

  update_fault :
      (f : String) (change : FaultEvent → FaultEvent) (s : r.Server) (m : GatewayStore)
      (evt : FaultEvent)
      → Refines w r prefix s m
      → get f m.fault_events ≡ some evt
      → update_loaded w r prefix f change (r.hget (key w r prefix "faults") f s) s ≡ (
        ok (some (change evt)),
        r.hset (key w r prefix "faults") f (w.fault_json.dump (change evt)) s,
      )
  unfolding update_loaded key
  update_fault f change s m evt h found =
      rw (h.faults f, found, update_loaded, w.fault_json.load-dump evt) refl

  update_missing :
      (f : String) (change : FaultEvent → FaultEvent) (s : r.Server) (m : GatewayStore)
      → Refines w r prefix s m
      → get f m.fault_events ≡ none
      → update_loaded w r prefix f change (r.hget (key w r prefix "faults") f s) s ≡ (ok none, s)
  unfolding update_loaded
  update_missing f change s m h missing = rw (h.faults f, missing, update_loaded) refl

  Agrees-update_fault_status :
      (f : String) (st : FaultEventStatus) (s : r.Server) (m : GatewayStore)
      → Refines w r prefix s m
      → Agrees (update_fault_status f st) s m
  unfolding on_redis in_memory RedisStore.update_fault_status
  Agrees-update_fault_status f st s m h = elim (Option-cases (get f m.fault_events)) [
    | inl missing ↦
        rw
          (update_missing f (with_status st) s m h missing, update_fault_status-none f m st missing)
          (refl, h)
    | inr (evt, found) ↦
        rw
          (
            update_fault f (with_status st) s m evt h found,
            update_fault_status-some f m st evt found,
          )
          (refl, put_fault w r prefix h f (with_status st evt))
  ]

  Agrees-update_fault_fields :
      (f : String) (fs : List Store.Assignment) (s : r.Server) (m : GatewayStore)
      → Refines w r prefix s m
      → Agrees (update_fault_fields f fs) s m
  unfolding on_redis in_memory RedisStore.update_fault_fields
  Agrees-update_fault_fields f fs s m h = elim (Option-cases (get f m.fault_events)) [
    | inl missing ↦
        rw (update_missing f (assign_all fs) s m h missing, update_fault_fields-none f m fs missing)
          (refl, h)
    | inr (evt, found) ↦
        rw
          (
            update_fault f (assign_all fs) s m evt h found,
            update_fault_fields-some f m fs evt found,
          )
          (refl, put_fault w r prefix h f (assign_all fs evt))
  ]

  Agrees-mark_read :
      (id : String) (s : r.Server) (m : GatewayStore)
      → Refines w r prefix s m
      → Agrees (mark_read id) s m
  unfolding on_redis in_memory RedisStore.mark_read
  Agrees-mark_read id s m h = elim (Option-cases (get id m.notifications)) [
    | inl missing ↦ rw (h.notifs id, mark_read-none id m missing, missing, mark_loaded) (refl, h)
    | inr (n, found) ↦
        rw
          (
            h.notifs id,
            mark_read-some id m n found,
            found,
            mark_loaded,
            w.notification_json.load-dump n,
          )
          (refl, put_notification w r prefix h id (record n { read = true }))
  ]

  pub on_redis-in_memory :
      (op : Op) (s : r.Server) (m : GatewayStore) → Refines w r prefix s m → Agrees op s m
  unfolding on_redis in_memory RedisStore.create_fault_event RedisStore.list_faults
      RedisStore.get_fault RedisStore.has_fault RedisStore.list_assets RedisStore.get_asset
      RedisStore.has_asset RedisStore.set_asset RedisStore.create_notification
      RedisStore.list_notifications RedisStore.create_activity RedisStore.list_activity_events
      RedisStore.set_pending_token RedisStore.get_pending_token Store.create_fault_event
      Store.list_faults Store.get_fault Store.has_fault Store.list_assets Store.get_asset
      Store.has_asset Store.set_asset Store.create_notification Store.list_notifications
      Store.create_activity Store.list_activity_events Store.set_pending_token
      Store.get_pending_token
  on_redis-in_memory (create_fault_event id now n) s m h = (refl, put_fault w r prefix h id _)
  on_redis-in_memory (update_fault_status f st) s m h = Agrees-update_fault_status f st s m h
  on_redis-in_memory (update_fault_fields f fs) s m h = Agrees-update_fault_fields f fs s m h
  on_redis-in_memory (list_faults weight) s m h = (
    sum-hgetall w r prefix "faults" w.fault_json.dump m.fault_events s w.fault_json.load weight
        w.fault_json.load-dump h.fault_keys h.faults,
    h,
  )
  on_redis-in_memory (get_fault f) s m h = (
    rw
        (
          h.faults f,
          load_some-dump w.is_empty w.fault_json.dump w.fault_json.load w.fault_json.load-dump
              w.fault_json.dump_non_empty (get f m.fault_events),
        )
        refl,
    h,
  )
  on_redis-in_memory (has_fault f) s m h = (
    rw (hexists-contains w r prefix "faults" w.fault_json.dump m.fault_events s f h.faults) refl,
    h,
  )
  on_redis-in_memory (list_assets weight) s m h = (
    sum-hgetall w r prefix "assets" (dump_asset w r prefix) m.assets s (load_asset w r prefix)
        weight (load_asset-dump w r prefix) h.asset_keys h.assets,
    h,
  )
  on_redis-in_memory (get_asset a) s m h = (
    rw
        (
          h.assets a,
          load_some-dump w.is_empty (dump_asset w r prefix) (load_asset w r prefix)
              (load_asset-dump w r prefix) (λ x. w.json.dump_non_empty (asset_json x))
              (get a m.assets),
        )
        refl,
    h,
  )
  on_redis-in_memory (has_asset a) s m h = (
    rw (hexists-contains w r prefix "assets" (dump_asset w r prefix) m.assets s a h.assets) refl,
    h,
  )
  on_redis-in_memory (set_asset a) s m h = (refl, put_asset w r prefix h a)
  on_redis-in_memory (create_notification id now f title body) s m h =
      (refl, put_notification w r prefix h id _)
  on_redis-in_memory (mark_read id) s m h = Agrees-mark_read id s m h
  on_redis-in_memory (list_notifications weight) s m h = (
    sum-hgetall w r prefix "notifs" w.notification_json.dump m.notifications s
        w.notification_json.load weight w.notification_json.load-dump h.notif_keys h.notifs,
    h,
  )
  on_redis-in_memory (create_activity id now f step message) s m h =
      (refl, push_activity w r prefix h _)
  on_redis-in_memory list_activity_events s m h = (
    rw
        (
          h.activity,
          load_list-map w.activity_json.dump w.activity_json.load w.activity_json.load-dump
              m.activity_events,
        )
        refl,
    h,
  )
  on_redis-in_memory (set_pending_token f t) s m h = (refl, put_token w r prefix h f t)
  on_redis-in_memory (get_pending_token f) s m h =
      (rw (h.tokens f) (ap (λ t. ok (token_or_none t)) (unraw-token w (get f m.pending_tokens))), h)
