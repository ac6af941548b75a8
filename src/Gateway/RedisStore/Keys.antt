-- ===== src/Gateway/RedisStore/Keys.antt =====
-- services/gateway/redis_store.py: the keys of one prefix are distinct, and an asset record survives
-- its JSON.
use package.text.Mathlib.TextLemmas.{append_cancel_left, append_cancel_right}
use nemoclaw_lab_cl.Base.{String, Option, none, some, ◌==◌, ◌≡◌, refl, arith, eq_iff}
use nemoclaw_lab_cl.Base.Json.{dict, at, text_at}
use nemoclaw_lab_cl.Base.Text.{text}
use nemoclaw_lab_cl.Models.{AssetState, healthy, faulted}
use nemoclaw_lab_cl.Gateway.Store.{AssetRecord}
use nemoclaw_lab_cl.Gateway.RedisStore.{Redis, Wire, key, asset_json, asset_of_json, state_of_text}

module _ (w : Wire) (r : Redis w.Text) (prefix : String) where
  key_injective : (a b : String) → key w r prefix a ≡ key w r prefix b → a ≡ b
  unfolding key text
  key_injective a b h =
      append_cancel_right a b "" (append_cancel_left ":" _ _ (append_cancel_left prefix _ _ h))

  pub key_eq : (a b : String) → (key w r prefix a == key w r prefix b) ≡ (a == b)
  key_eq a b =
      ground (arith, eq_iff a b, eq_iff (key w r prefix a) (key w r prefix b), key_injective a b)

abbrev record_with : String → String → AssetState → Option String → AssetRecord
record_with id type state link = record {
  id = id;
  type = type;
  state = state;
  active_fault_event_id = link;
}

read_back :
    (id type : String) (state : AssetState) (link : Option String)
    → asset_of_json (asset_json (record_with id type state link))
      ≡ some (record_with id type state link)
unfolding asset_of_json asset_json state_of_text text_at at dict
read_back id type healthy none = refl
read_back id type healthy (some f) = refl
read_back id type faulted none = refl
read_back id type faulted (some f) = refl

-- An asset record is read back from the JSON that `set_asset` writes, its state and its absent link
-- included.
pub asset_json_round_trip : (a : AssetRecord) → asset_of_json (asset_json a) ≡ some a
asset_json_round_trip a = read_back a.id a.type a.state a.active_fault_event_id
