-- ===== src/McpTools/Adapters.antt =====
-- services/mcp_tools/adapters/base.py and generic.py: how the agent's tools read the simulator. A
-- response arrives as the JSON objects that the surface sent; a failed `raise_for_status` or a
-- missing "id" raises.
pub mod Reports
pub mod Redfish
use nemoclaw_lab_cl.Base.{
  String, Option, none, some, List, [], ◌∷◌, ◌==◌, Result, ok, err, ◌>>=◌, map, if◌then◌else◌,
}
use nemoclaw_lab_cl.Base.Dict.{Dict, get}
use nemoclaw_lab_cl.Base.Http.{HttpError}

pub record MonitorAsset : Type 0 where
  pub id : String
  pub type : String
  pub state : String

pub record MonitorEvent : Type 0 where
  pub asset_id : String
  pub severity : String
  pub message : String
  pub message_id : String
  pub ts : String

pub data AdapterError : Type 0 where
  status : HttpError → AdapterError
  key : String → AdapterError

-- `d.get(k, default)`
unfoldable pub get_or : String → String → Dict String → String
get_or k default d = elim (get k d) [ none ↦ default | some x ↦ x ]

unfoldable pub asset_of : Dict String → Result AdapterError MonitorAsset
unfolding get_or
asset_of a = elim (get "id" a) [
  | none ↦ err (key "id")
  | some id ↦
      ok (record { id = id; type = get_or "type" "device" a; state = get_or "state" "healthy" a })
]

unfoldable pub list_assets : List (Dict String) → Result AdapterError (List MonitorAsset)
list_assets [] = ok []
list_assets (a ∷ rest) =
    let others = list_assets rest in asset_of a >>= λ x. others >>= λ xs. ok (x ∷ xs)

unfoldable pub get_asset : Result HttpError (Dict String) → Result AdapterError MonitorAsset
get_asset (err e) = err (status e)
get_asset (ok a) = asset_of a

unfoldable pub event_of : Dict String → MonitorEvent
unfolding get_or
event_of e = record {
  asset_id = get_or "asset_id" "" e;
  severity = get_or "severity" "Unknown" e;
  message = get_or "message" "" e;
  message_id = get_or "message_id" "" e;
  ts = get_or "ts" "" e;
}

-- `{"asset_id": asset_id} if asset_id else {}`, which the surface reads as "" when it is absent
unfoldable pub query_of : Option String → String
query_of none = ""
query_of (some asset_id) = asset_id

unfoldable pub list_events : List (Dict String) → List MonitorEvent
unfolding event_of
list_events es = map event_of es
