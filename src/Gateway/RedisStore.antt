-- ===== src/Gateway/RedisStore.antt =====
-- services/gateway/redis_store.py: `RedisGatewayStore`, over the commands of a Redis server and the
-- JSON of pydantic and `json`, which are parameters.
pub mod Keys
pub mod Shows
pub mod Ops
pub mod Refines
use nemoclaw_lab_cl.Base.{
  ℕ, suc, String, Bool, true, false, Option, none, some, List, [], ◌∷◌, ◌++◌, ◌==◌, ◌&&◌,
  if◌then◌else◌, Result, ok, err, ◌>>=◌, or_raise, is_some, ◌≡◌,
}
use nemoclaw_lab_cl.Base.Dict.{Dict, get, Distinct}
use nemoclaw_lab_cl.Base.Json.{Json, str, null, dict, at, text_at}
use nemoclaw_lab_cl.Base.Text.{text}
use nemoclaw_lab_cl.Models.{
  Timestamp, FaultEvent, FaultEventStatus, Notification, ActivityEvent, AssetState, healthy,
  faulted,
}
use nemoclaw_lab_cl.Gateway.Store.{
  AssetRecord, NewFault, Assignment, new_fault_event, new_notification, new_activity, with_status,
  assign_all, unread,
}

-- What the store uses of a Redis server. The keys that it uses as hashes hold no list and the other
-- way round, so no command fails with WRONGTYPE.
pub record Redis (Text : Type 0) : Type 1 where
  pub Server : Type 0
  pub hset : String → String → Text → Server → Server
  pub hget : String → String → Server → Option Text
  pub hexists : String → String → Server → Bool
  pub hgetall : String → Server → Dict Text
  pub rpush : String → Text → Server → Server
  -- `LRANGE key 0 -1`
  pub lrange : String → Server → List Text
  pub hget-hset :
      (k f j g : String) (v : Text) (s : Server)
      → hget j g (hset k f v s) ≡ (if k == j && f == g then some v else hget j g s)
  pub hget-rpush : (k j g : String) (v : Text) (s : Server) → hget j g (rpush k v s) ≡ hget j g s
  pub lrange-hset : (k f j : String) (v : Text) (s : Server) → lrange j (hset k f v s) ≡ lrange j s
  pub lrange-rpush :
      (k j : String) (v : Text) (s : Server)
      → lrange j (rpush k v s) ≡ (if k == j then lrange j s ++ v ∷ [] else lrange j s)
  pub hexists-hget : (k f : String) (s : Server) → hexists k f s ≡ is_some (hget k f s)
  pub get-hgetall : (k f : String) (s : Server) → get f (hgetall k s) ≡ hget k f s
  pub hgetall-Distinct : (k : String) (s : Server) → Distinct (hgetall k s)

-- A value written as JSON is read back, and its JSON is not the empty text.
pub record Codec (Text : Type 0) (is_empty : Text → Bool) (A : Type 0) : Type 0 where
  pub dump : A → Text
  pub load : Text → Option A
  pub load-dump : (a : A) → load (dump a) ≡ some a
  pub dump_non_empty : (a : A) → is_empty (dump a) ≡ false

-- The texts on the wire: JSON, and tokens as they are.
pub record Wire : Type 1 where
  pub Text : Type 0
  pub is_empty : Text → Bool
  pub fault_json : Codec Text is_empty FaultEvent
  pub notification_json : Codec Text is_empty Notification
  pub activity_json : Codec Text is_empty ActivityEvent
  pub json : Codec Text is_empty Json
  pub raw : String → Text
  pub unraw : Text → String
  pub unraw-raw : (s : String) → unraw (raw s) ≡ s

-- `ValidationError`, `JSONDecodeError`, `KeyError` or `ValueError` on what a hash holds
pub data Corrupt : Type 0 where
  corrupt : Corrupt

abbrev pub state_text : AssetState → String
state_text healthy = "healthy"
state_text faulted = "faulted"

-- `AssetState(text)`
unfoldable pub state_of_text : String → Option AssetState
state_of_text s =
    if s == "healthy" then some healthy else if s == "faulted" then some faulted else none

abbrev pub link_json : Option String → Json
link_json none = null
link_json (some f) = str f

unfoldable pub asset_json : AssetRecord → Json
asset_json a = dict (
    ("id", str a.id)
    ∷ ("type", str a.type)
    ∷ ("state", str (state_text a.state))
    ∷ ("active_fault_event_id", link_json a.active_fault_event_id)
    ∷ [])

abbrev bind {ℓ} : {A B : Type ℓ} → Option A → (A → Option B) → Option B
bind none f = none
bind (some a) f = f a

unfoldable pub asset_of_json : Json → Option AssetRecord
unfolding state_of_text
asset_of_json data_ = bind (text_at "id" data_) λ id. bind (text_at "type" data_) λ type.
    bind (text_at "state" data_) λ state_value. bind (state_of_text state_value) λ state.
      some (record {
        id = id;
        type = type;
        state = state;
        active_fault_event_id = text_at "active_fault_event_id" data_;
      })

abbrev pub Loaded : Type 0 → Type 0
Loaded A = Result Corrupt A

module _ {Text A : Type 0} (load : Text → Option A) where
  unfoldable pub load_each : Dict Text → Loaded (List A)
  load_each [] = ok []
  load_each ((f, raw) ∷ d) =
      let rest = load_each d in or_raise corrupt (load raw) >>= λ x. rest >>= λ xs. ok (x ∷ xs)

  unfoldable pub load_list : List Text → Loaded (List A)
  load_list [] = ok []
  load_list (raw ∷ raws) =
      let rest = load_list raws in or_raise corrupt (load raw) >>= λ x. rest >>= λ xs. ok (x ∷ xs)

  -- `… if raw else None`
  unfoldable pub load_some : (Text → Bool) → Option Text → Loaded (Option A)
  load_some is_empty none = ok none
  load_some is_empty (some raw) =
      if is_empty raw then ok none else or_raise corrupt (load raw) >>= λ x. ok (some x)

-- a token as it is read back
abbrev unraw_token : (w : Wire) → Option w.Text → Option String
unraw_token w none = none
unraw_token w (some raw) = some (w.unraw raw)

module _ (w : Wire) (r : Redis w.Text) (prefix : String) where
  -- `_k`
  unfoldable pub key : String → String
  key name = text (prefix ∷ ":" ∷ name ∷ [])

  -- `_deserialize_asset`
  unfoldable pub load_asset : w.Text → Option AssetRecord
  load_asset raw = bind (w.json.load raw) asset_of_json

  unfoldable pub create_fault_event :
      String → Timestamp → NewFault → r.Server → FaultEvent × r.Server
  unfolding key
  create_fault_event id now n s =
      let evt = new_fault_event id now n in
      (evt, r.hset (key "faults") evt.id (w.fault_json.dump evt) s)

  -- both updates: read, copy with the changes, write back
  update_loaded :
      String
      → (FaultEvent → FaultEvent)
      → Option w.Text
      → r.Server
      → Loaded (Option FaultEvent) × r.Server
  update_loaded fault_event_id change none s = (ok none, s)
  update_loaded fault_event_id change (some raw) s = elim (w.fault_json.load raw) [
    | none ↦ (err corrupt, s)
    | some evt ↦ (
      ok (some (change evt)),
      r.hset (key "faults") fault_event_id (w.fault_json.dump (change evt)) s,
    )
  ]

  unfoldable pub update_fault_status :
      String → FaultEventStatus → r.Server → Loaded (Option FaultEvent) × r.Server
  unfolding update_loaded key
  update_fault_status fault_event_id status s =
      update_loaded fault_event_id (with_status status) (r.hget (key "faults") fault_event_id s) s

  unfoldable pub update_fault_fields :
      String → List Assignment → r.Server → Loaded (Option FaultEvent) × r.Server
  unfolding update_loaded key
  update_fault_fields fault_event_id fields s =
      update_loaded fault_event_id (assign_all fields) (r.hget (key "faults") fault_event_id s) s

  unfoldable pub list_faults : r.Server → Loaded (List FaultEvent)
  unfolding load_each key
  list_faults s = load_each w.fault_json.load (r.hgetall (key "faults") s)

  unfoldable pub get_fault : String → r.Server → Loaded (Option FaultEvent)
  unfolding load_some key
  get_fault fault_id s = load_some w.fault_json.load w.is_empty (r.hget (key "faults") fault_id s)

  unfoldable pub has_fault : String → r.Server → Bool
  unfolding key
  has_fault fault_id s = r.hexists (key "faults") fault_id s

  unfoldable pub list_assets : r.Server → Loaded (List AssetRecord)
  unfolding load_each load_asset key
  list_assets s = load_each load_asset (r.hgetall (key "assets") s)

  unfoldable pub get_asset : String → r.Server → Loaded (Option AssetRecord)
  unfolding load_some load_asset key
  get_asset asset_id s = load_some load_asset w.is_empty (r.hget (key "assets") asset_id s)

  unfoldable pub has_asset : String → r.Server → Bool
  unfolding key
  has_asset asset_id s = r.hexists (key "assets") asset_id s

  unfoldable pub set_asset : AssetRecord → r.Server → r.Server
  unfolding key
  set_asset asset s = r.hset (key "assets") asset.id (w.json.dump (asset_json asset)) s

  unfoldable pub create_notification :
      String → Timestamp → String → String → String → r.Server → Notification × r.Server
  unfolding key
  create_notification id now fault_event_id title body s =
      let notif = new_notification id now fault_event_id title body in
      (notif, r.hset (key "notifs") notif.id (w.notification_json.dump notif) s)

  mark_loaded : String → Option w.Text → r.Server → Loaded Bool × r.Server
  mark_loaded notification_id none s = (ok false, s)
  mark_loaded notification_id (some raw) s = elim (w.notification_json.load raw) [
    | none ↦ (err corrupt, s)
    | some n ↦ (
      ok true,
      r.hset (key "notifs") notification_id (w.notification_json.dump (record n { read = true })) s,
    )
  ]

  unfoldable pub mark_read : String → r.Server → Loaded Bool × r.Server
  unfolding mark_loaded key
  mark_read notification_id s =
      mark_loaded notification_id (r.hget (key "notifs") notification_id s) s

  unfoldable pub list_notifications : r.Server → Loaded (List Notification)
  unfolding load_each key
  list_notifications s = load_each w.notification_json.load (r.hgetall (key "notifs") s)

  unfoldable pub get_unread_count : r.Server → Loaded ℕ
  get_unread_count s = list_notifications s >>= λ ns. ok (unread ns)

  unfoldable pub create_activity :
      String → Timestamp → String → String → String → r.Server → ActivityEvent × r.Server
  unfolding key
  create_activity id now fault_event_id step message s =
      let evt = new_activity id now fault_event_id step message in
      (evt, r.rpush (key "activity") (w.activity_json.dump evt) s)

  unfoldable pub list_activity_events : r.Server → Loaded (List ActivityEvent)
  unfolding load_list key
  list_activity_events s = load_list w.activity_json.load (r.lrange (key "activity") s)

  unfoldable pub set_pending_token : String → String → r.Server → r.Server
  unfolding key
  set_pending_token fault_id token s = r.hset (key "tokens") fault_id (w.raw token) s

  unfoldable pub get_pending_token : String → r.Server → Option String
  unfolding key
  get_pending_token fault_id s = unraw_token w (r.hget (key "tokens") fault_id s)
