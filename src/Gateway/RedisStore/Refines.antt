-- ===== src/Gateway/RedisStore/Refines.antt =====
-- services/gateway/redis_store.py: "Drop-in async replacement for GatewayStore".
pub mod Reads
pub mod Agrees
use mathlib.Core.Option
use mathlib.Core.List.{map-append}
use nemoclaw_lab_cl.Base.{
  ℕ, String, Bool, true, false, Option, none, some, List, [], ◌∷◌, ◌++◌, ◌==◌, if◌then◌else◌, map,
  Result, ok, err, ◌>>=◌, or_raise, ◌≡◌, refl, sym, ap, ◌∙◌, arith, eq_refl, Option-cases, inl, inr,
  is_some,
}
use nemoclaw_lab_cl.Base.Dict.{
  Dict, get, put, contains, contains-get, values, total, Distinct, Distinct-put,
}
use nemoclaw_lab_cl.Models.{FaultEvent, FaultEventStatus, Notification, ActivityEvent}
use nemoclaw_lab_cl.Gateway.Store
use nemoclaw_lab_cl.Gateway.Store.{GatewayStore, AssetRecord, with_status, assign_all}
use nemoclaw_lab_cl.Gateway.Store.Branches.{
  update_fault_status-some, update_fault_status-none, update_fault_fields-some,
  update_fault_fields-none, mark_read-some, mark_read-none,
}
use nemoclaw_lab_cl.Gateway.RedisStore
use nemoclaw_lab_cl.Gateway.RedisStore.{
  Redis, Wire, Codec, Corrupt, corrupt, key, asset_json, asset_of_json, load_each, load_some,
  load_list, load_asset, update_loaded, mark_loaded,
}
use nemoclaw_lab_cl.Gateway.RedisStore.Keys.{key_eq, asset_json_round_trip}
use nemoclaw_lab_cl.Gateway.RedisStore.Shows.{
  Shows, Shows-put, Shows-hset, Shows-rpush, sum, sum-values, load_each-Same,
}
use nemoclaw_lab_cl.Gateway.RedisStore.Ops.{
  Op, Answer, on_redis, in_memory, replies, answers, map_ok,
}

module _ (w : Wire) (r : Redis w.Text) (prefix : String) where
  abbrev dump_asset : AssetRecord → w.Text
  dump_asset a = w.json.dump (asset_json a)

  load_asset-dump : (a : AssetRecord) → load_asset w r prefix (dump_asset a) ≡ some a
  unfolding load_asset
  load_asset-dump a = rw (w.json.load-dump (asset_json a)) (asset_json_round_trip a)

  -- The server holds what the in-memory store holds.
  pub record Refines (s : r.Server) (m : GatewayStore) : Type 0 where
    pub faults : Shows w r prefix "faults" w.fault_json.dump m.fault_events s
    pub assets : Shows w r prefix "assets" dump_asset m.assets s
    pub notifs : Shows w r prefix "notifs" w.notification_json.dump m.notifications s
    pub tokens : Shows w r prefix "tokens" w.raw m.pending_tokens s
    pub activity :
        r.lrange (key w r prefix "activity") s ≡ map w.activity_json.dump m.activity_events
    pub fault_keys : Distinct m.fault_events
    pub asset_keys : Distinct m.assets
    pub notif_keys : Distinct m.notifications

  module _ {s : r.Server} {m : GatewayStore} (h : Refines s m) where
    put_fault :
        (f : String) (evt : FaultEvent)
        → Refines
            (r.hset (key w r prefix "faults") f (w.fault_json.dump evt) s)
            (record m { fault_events = put f evt m.fault_events })
    put_fault f evt = record {
      faults = Shows-put w r prefix "faults" w.fault_json.dump f evt m.fault_events s h.faults;
      assets = Shows-hset w r prefix "assets" dump_asset "faults" f _ m.assets s refl h.assets;
      notifs =
          Shows-hset w r prefix "notifs" w.notification_json.dump "faults" f _ m.notifications s
            refl h.notifs;
      tokens = Shows-hset w r prefix "tokens" w.raw "faults" f _ m.pending_tokens s refl h.tokens;
      activity = r.lrange-hset _ _ _ _ _ ∙ h.activity;
      fault_keys = Distinct-put f evt m.fault_events h.fault_keys;
      asset_keys = h.asset_keys;
      notif_keys = h.notif_keys;
    }

    put_asset :
        (a : AssetRecord)
        → Refines
            (r.hset (key w r prefix "assets") a.id (dump_asset a) s)
            (record m { assets = put a.id a m.assets })
    put_asset a = record {
      faults =
          Shows-hset w r prefix "faults" w.fault_json.dump "assets" a.id _ m.fault_events s refl
            h.faults;
      assets = Shows-put w r prefix "assets" dump_asset a.id a m.assets s h.assets;
      notifs =
          Shows-hset w r prefix "notifs" w.notification_json.dump "assets" a.id _ m.notifications s
            refl h.notifs;
      tokens =
          Shows-hset w r prefix "tokens" w.raw "assets" a.id _ m.pending_tokens s refl h.tokens;
      activity = r.lrange-hset _ _ _ _ _ ∙ h.activity;
      fault_keys = h.fault_keys;
      asset_keys = Distinct-put a.id a m.assets h.asset_keys;
      notif_keys = h.notif_keys;
    }

    put_notification :
        (f : String) (n : Notification)
        → Refines
            (r.hset (key w r prefix "notifs") f (w.notification_json.dump n) s)
            (record m { notifications = put f n m.notifications })
    put_notification f n = record {
      faults =
          Shows-hset w r prefix "faults" w.fault_json.dump "notifs" f _ m.fault_events s refl
            h.faults;
      assets = Shows-hset w r prefix "assets" dump_asset "notifs" f _ m.assets s refl h.assets;
      notifs =
          Shows-put w r prefix "notifs" w.notification_json.dump f n m.notifications s h.notifs;
      tokens = Shows-hset w r prefix "tokens" w.raw "notifs" f _ m.pending_tokens s refl h.tokens;
      activity = r.lrange-hset _ _ _ _ _ ∙ h.activity;
      fault_keys = h.fault_keys;
      asset_keys = h.asset_keys;
      notif_keys = Distinct-put f n m.notifications h.notif_keys;
    }

    put_token :
        (f t : String)
        → Refines
            (r.hset (key w r prefix "tokens") f (w.raw t) s)
            (record m { pending_tokens = put f t m.pending_tokens })
    put_token f t = record {
      faults =
          Shows-hset w r prefix "faults" w.fault_json.dump "tokens" f _ m.fault_events s refl
            h.faults;
      assets = Shows-hset w r prefix "assets" dump_asset "tokens" f _ m.assets s refl h.assets;
      notifs =
          Shows-hset w r prefix "notifs" w.notification_json.dump "tokens" f _ m.notifications s
            refl h.notifs;
      tokens = Shows-put w r prefix "tokens" w.raw f t m.pending_tokens s h.tokens;
      activity = r.lrange-hset _ _ _ _ _ ∙ h.activity;
      fault_keys = h.fault_keys;
      asset_keys = h.asset_keys;
      notif_keys = h.notif_keys;
    }

    push_activity :
        (e : ActivityEvent)
        → Refines
            (r.rpush (key w r prefix "activity") (w.activity_json.dump e) s)
            (record m { activity_events = m.activity_events ++ e ∷ [] })
    push_activity e = record {
      faults =
          Shows-rpush w r prefix "faults" w.fault_json.dump "activity" _ m.fault_events s h.faults;
      assets = Shows-rpush w r prefix "assets" dump_asset "activity" _ m.assets s h.assets;
      notifs =
          Shows-rpush w r prefix "notifs" w.notification_json.dump "activity" _ m.notifications s
            h.notifs;
      tokens = Shows-rpush w r prefix "tokens" w.raw "activity" _ m.pending_tokens s h.tokens;
      activity =
          r.lrange-rpush _ _ _ _
          ∙ rw (eq_refl (key w r prefix "activity"), h.activity)
              (sym (map-append w.activity_json.dump m.activity_events (e ∷ [])));
      fault_keys = h.fault_keys;
      asset_keys = h.asset_keys;
      notif_keys = h.notif_keys;
    }
