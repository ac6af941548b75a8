-- ===== src/Tests/Redis.antt =====
-- A concrete Redis server and wire format for services/gateway/redis_store.py, and runs on them.
use nemoclaw_lab_cl.Base.{
  String, Bool, false, Option, none, some, List, [], ◌∷◌, ◌++◌, ◌==◌, ◌&&◌, if◌then◌else◌, ◌≡◌,
  refl, arith, eq_iff, Option-cases, inl, inr,
}
use nemoclaw_lab_cl.Base.Dict.{
  Dict, get, put, contains, get-put, contains-get, Distinct, Distinct-put, Each, Each-put, Each-get,
}
use nemoclaw_lab_cl.Base.Json.{Json}
use nemoclaw_lab_cl.Models.{FaultEvent, Notification, ActivityEvent, faulted}
use nemoclaw_lab_cl.Gateway.Store.{AssetRecord}
use nemoclaw_lab_cl.Gateway.RedisStore.{Redis, Wire, asset_json, asset_of_json}
use nemoclaw_lab_cl.Gateway.RedisStore.Keys.{asset_json_round_trip}
use nemoclaw_lab_cl.Gateway.RedisStore.Refines.{Refines}
use nemoclaw_lab_cl.Gateway.RedisStore.Ops.{
  Op, create_fault_event, list_faults, set_asset, get_asset, has_asset, mark_read, create_activity,
  list_activity_events, set_pending_token, get_pending_token,
}

data Stored : Type 0 where
  fault_text : FaultEvent → Stored
  notification_text : Notification → Stored
  activity_text : ActivityEvent → Stored
  json_text : Json → Stored
  plain : String → Stored

abbrev is_empty_text : Stored → Bool
is_empty_text (plain s) = s == ""
is_empty_text _ = false

abbrev fault_in : Stored → Option FaultEvent
fault_in (fault_text e) = some e
fault_in _ = none

abbrev notification_in : Stored → Option Notification
notification_in (notification_text n) = some n
notification_in _ = none

abbrev activity_in : Stored → Option ActivityEvent
activity_in (activity_text e) = some e
activity_in _ = none

abbrev json_in : Stored → Option Json
json_in (json_text j) = some j
json_in _ = none

abbrev plain_in : Stored → String
plain_in (plain s) = s
plain_in _ = ""

abbrev tagged : Wire
tagged = record {
  Text = Stored;
  is_empty = is_empty_text;
  fault_json = record {
    dump = fault_text;
    load = fault_in;
    load-dump = λ e. refl;
    dump_non_empty = λ e. refl;
  };
  notification_json = record {
    dump = notification_text;
    load = notification_in;
    load-dump = λ e. refl;
    dump_non_empty = λ e. refl;
  };
  activity_json = record {
    dump = activity_text;
    load = activity_in;
    load-dump = λ e. refl;
    dump_non_empty = λ e. refl;
  };
  json = record {
    dump = json_text;
    load = json_in;
    load-dump = λ e. refl;
    dump_non_empty = λ e. refl;
  };
  raw = plain;
  unraw = plain_in;
  unraw-raw = λ s. refl;
}

abbrev or_empty : {A : Type 0} → Option (List A) → List A
or_empty none = []
or_empty (some xs) = xs

module _ (V : Type 0) where
  abbrev DistinctHash : String → Dict V → Type 0
  DistinctHash k h = Distinct h

  record Keyspace : Type 0 where
    hashes : Dict (Dict V)
    each_distinct : Each DistinctHash hashes
    lists : Dict (List V)

  abbrev hash : String → Keyspace → Dict V
  hash k s = or_empty (get k s.hashes)

  abbrev list_at : String → Keyspace → List V
  list_at k s = or_empty (get k s.lists)

  hash-Distinct : (k : String) (s : Keyspace) → Distinct (hash k s)
  hash-Distinct k s = elim (Option-cases (get k s.hashes)) [
    | inl missing ↦ rw missing tt
    | inr (h, found) ↦ rw found (Each-get DistinctHash k s.hashes s.each_distinct found)
  ]

  abbrev set_field : String → String → V → Keyspace → Keyspace
  set_field k f v s = record {
    hashes = put k (put f v (hash k s)) s.hashes;
    each_distinct =
        Each-put DistinctHash k (put f v (hash k s)) s.hashes
          (Distinct-put f v (hash k s) (hash-Distinct k s)) s.each_distinct;
    lists = s.lists;
  }

  abbrev push_item : String → V → Keyspace → Keyspace
  push_item k v s = record {
    hashes = s.hashes;
    each_distinct = s.each_distinct;
    lists = put k (list_at k s ++ v ∷ []) s.lists;
  }

  hash-set_field :
      (k f j g : String) (v : V) (s : Keyspace)
      → get g (hash j (set_field k f v s)) ≡ (if k == j && f == g then some v else get g (hash j s))
  hash-set_field k f j g v s =
      ground
        (arith, get-put k j (put f v (hash k s)) s.hashes, get-put f g v (hash k s), eq_iff k j)

  list-push_item :
      (k j : String) (v : V) (s : Keyspace)
      → list_at j (push_item k v s) ≡ (if k == j then list_at j s ++ v ∷ [] else list_at j s)
  list-push_item k j v s = ground (arith, get-put k j (list_at k s ++ v ∷ []) s.lists, eq_iff k j)

  abbrev memory : Redis V
  memory = record {
    Server = Keyspace;
    hset = set_field;
    hget = λ k f s. get f (hash k s);
    hexists = λ k f s. contains f (hash k s);
    hgetall = hash;
    rpush = push_item;
    lrange = list_at;
    hget-hset = hash-set_field;
    hget-rpush = λ k j g v s. refl;
    lrange-hset = λ k f j v s. refl;
    lrange-rpush = list-push_item;
    hexists-hget = λ k f s. contains-get f (hash k s);
    get-hgetall = λ k f s. refl;
    hgetall-Distinct = hash-Distinct;
  }

  abbrev flushed : Keyspace
  flushed = record { hashes = []; each_distinct = tt; lists = [] }

abbrev node : AssetRecord
node = record { id = "node-1"; type = "server"; state = faulted; active_fault_event_id = some "f1" }

-- a fault, its token, its asset and its activity, written and read back
abbrev session : List Op
session =
    create_fault_event "f1" 7 (record {
      scenario_id = "gpu";
      asset_id = "node-1";
      kb_article_id = none;
      log_extract = none;
      remediation_step_labels = [];
      impact = none;
    })
    ∷ set_asset node
    ∷ set_pending_token "f1" "tok"
    ∷ create_activity "a1" 8 "f1" "detected" "Fault on node-1"
    ∷ list_faults (λ evt. evt.detected_at)
    ∷ has_asset "node-1"
    ∷ get_asset "node-1"
    ∷ mark_read "n1"
    ∷ get_pending_token "f1"
    ∷ list_activity_events
    ∷ []

asset_json_round_trip_example : asset_of_json (asset_json node) ≡ some node
asset_json_round_trip_example = asset_json_round_trip node
