-- ===== src/McpTools/Adapters/Redfish.antt =====
-- services/mcp_tools/adapters/redfish.py: `RedfishAdapter`. A `fetch` stands for the HTTP client: it
-- takes the path behind the simulator's base URL and gives the parsed body, or the error that
-- `raise_for_status` raises. A value of an unexpected JSON type is passed on or raises in Python; it
-- reads as absent here.
pub mod Agrees
pub mod Events
use nemoclaw_lab_cl.Base.{
  String, Option, none, some, List, [], ◌∷◌, ◌++◌, ◌==◌, Result, ok, err, ◌>>=◌, map, if◌then◌else◌,
  or_raise,
}
use nemoclaw_lab_cl.Base.Http.{HttpError}
use nemoclaw_lab_cl.Base.Json.{Json, arr, str, dict, list, at, at_or, text_at, to_list}
use nemoclaw_lab_cl.Base.Text.{text, rstrip_by, one_of, after_last_slash}
use nemoclaw_lab_cl.McpTools.Adapters.{MonitorAsset, MonitorEvent, AdapterError, status, key}

abbrev listed : Json → List Json
listed (arr xs) = to_list xs
listed _ = []

-- `d.get(k, [])`
unfoldable pub list_at : String → Json → List Json
unfolding at_or at list
list_at k d = listed (at_or k (list []) d)

-- `d.get(k, default)` of a text
unfoldable pub text_or : String → String → Json → String
unfolding text_at at
text_or k default d = elim (text_at k d) [ none ↦ default | some t ↦ t ]

-- `asset_url.rstrip("/").split("/")[-1]`
unfoldable pub last_segment : String → String
unfolding rstrip_by one_of after_last_slash
last_segment url = after_last_slash (rstrip_by (one_of "/") url)

unfoldable pub asset_of : String → Json → MonitorAsset
unfolding at_or at text_or dict
asset_of asset_id data_ = record {
  id = asset_id;
  type = text_or "SystemType" "server" data_;
  state =
      if text_or "Health" "OK" (at_or "Status" (dict []) data_) == "OK"
      then "healthy"
      else "faulted";
}

-- one entry of a log, and one event of the event service
unfoldable pub entry_event : String → Json → MonitorEvent
unfolding text_or
entry_event asset_id e = record {
  asset_id = asset_id;
  severity = text_or "Severity" "Unknown" e;
  message = text_or "Message" "" e;
  message_id = text_or "MessageId" "" e;
  ts = text_or "Created" "" e;
}

unfoldable pub service_event : String → Json → MonitorEvent
unfolding text_or
service_event aid evt = record {
  asset_id = aid;
  severity = text_or "Severity" "Unknown" evt;
  message = text_or "Message" "" evt;
  message_id = text_or "MessageId" "" evt;
  ts = text_or "EventTimestamp" "" evt;
}

abbrev pub Read : Type 0 → Type 0
Read A = Result AdapterError A

-- the loop of the all-assets path
unfoldable pub service_events : List Json → Read (List MonitorEvent)
unfolding list_at service_event text_at
service_events [] = ok []
service_events (member ∷ members) =
    let rest = service_events members in
    or_raise (key "Id") (text_at "Id" member) >>= λ aid.
    rest >>= λ others. ok (map (service_event aid) (list_at "Events" member) ++ others)

-- `raise_for_status()` and `json()`
abbrev pub checked : Result HttpError Json → Read Json
checked (ok body) = ok body
checked (err e) = err (status e)

module _ (fetch : String → Result HttpError Json) where
  abbrev pub read : String → Read Json
  read path = checked (fetch path)

  -- one turn of the loop over the members
  unfoldable pub read_member : Json → Read MonitorAsset
  unfolding asset_of last_segment text_at
  read_member member = or_raise (key "@odata.id") (text_at "@odata.id" member) >>= λ asset_url.
      read asset_url >>= λ data_. ok (asset_of (last_segment asset_url) data_)

  unfoldable pub read_members : List Json → Read (List MonitorAsset)
  unfolding read_member
  read_members [] = ok []
  read_members (member ∷ members) =
      let rest = read_members members in
      read_member member >>= λ a. rest >>= λ others. ok (a ∷ others)

  unfoldable pub list_assets : Read (List MonitorAsset)
  unfolding read_members list_at
  list_assets = read "/redfish/v1/Systems" >>= λ data_. read_members (list_at "Members" data_)

  unfoldable pub list_events_of : String → Read (List MonitorEvent)
  unfolding entry_event list_at
  list_events_of asset_id =
      read (text ("/redfish/v1/Systems/" ∷ asset_id ∷ "/LogServices/DCGM/Entries" ∷ []))
      >>= λ data_. ok (map (entry_event asset_id) (list_at "Members" data_))

  unfoldable pub list_all_events : Read (List MonitorEvent)
  unfolding service_events list_at
  list_all_events =
      read "/redfish/v1/EventService/Events" >>= λ data_. service_events (list_at "Members" data_)

  -- `asset_id: str | None`, where "" is false too
  unfoldable pub list_events : Option String → Read (List MonitorEvent)
  unfolding list_events_of list_all_events
  list_events none = list_all_events
  list_events (some asset_id) = if asset_id == "" then list_all_events else list_events_of asset_id

  unfoldable pub get_asset : String → Read MonitorAsset
  unfolding asset_of
  get_asset asset_id =
      read (text ("/redfish/v1/Systems/" ∷ asset_id ∷ [])) >>= λ data_. ok (asset_of asset_id data_)
