-- ===== src/Gateway/Store.antt =====
-- services/gateway/store.py: `AssetRecord` and `GatewayStore`. Each method takes the store last and
-- returns it beside its result. A new id (`uuid4`) and the time are arguments.
pub mod Invariant
pub mod Reset
pub mod Laws
pub mod Branches
use nemoclaw_lab_cl.Base.{
  ℕ, zero, suc, String, Bool, true, false, Option, none, some, List, [], ◌∷◌, ◌++◌, not,
  if◌then◌else◌,
}
use nemoclaw_lab_cl.Base.Dict.{Dict, get, put, contains, values}
use nemoclaw_lab_cl.Models.{
  Timestamp, Score, ScenarioImpact, AssetState, healthy, FaultEventStatus, detected, FaultEvent,
  Notification, ActivityEvent,
}
use nemoclaw_lab_cl.Gateway.Sse
use nemoclaw_lab_cl.Gateway.Sse.{SseBroker}

pub record AssetRecord : Type 0 where
  pub id : String
  pub type : String
  pub state : AssetState
  pub active_fault_event_id : Option String

pub record GatewayStore : Type 0 where
  pub fault_events : Dict FaultEvent
  pub notifications : Dict Notification
  pub activity_events : List ActivityEvent
  pub assets : Dict AssetRecord
  pub pending_tokens : Dict String
  pub sse : SseBroker

abbrev pub empty : GatewayStore
empty = record {
  fault_events = [];
  notifications = [];
  activity_events = [];
  assets = [];
  pending_tokens = [];
  sse = Sse.empty;
}

-- the keyword arguments of `create_fault_event`
pub record NewFault : Type 0 where
  pub scenario_id : String
  pub asset_id : String
  pub kb_article_id : Option String
  pub log_extract : Option String
  pub remediation_step_labels : List String
  pub impact : Option ScenarioImpact

abbrev pub new_fault_event : String → Timestamp → NewFault → FaultEvent
new_fault_event id now n = record {
  id = id;
  scenario_id = n.scenario_id;
  asset_id = n.asset_id;
  detected_at = now;
  status = detected;
  kb_article_id = n.kb_article_id;
  log_extract = n.log_extract;
  remediation_step_labels = n.remediation_step_labels;
  error_signature = none;
  analysis = none;
  kb_title = none;
  kb_score = none;
  impact = n.impact;
}

unfoldable pub create_fault_event :
    String → Timestamp → NewFault → GatewayStore → FaultEvent × GatewayStore
create_fault_event id now n s =
    let evt = new_fault_event id now n in
    (evt, record s { fault_events = put evt.id evt s.fault_events })

-- `evt is None` or the copy written back
update_found :
    String
    → (FaultEvent → FaultEvent)
    → Option FaultEvent
    → GatewayStore
    → Option FaultEvent × GatewayStore
update_found fault_event_id change none s = (none, s)
update_found fault_event_id change (some evt) s =
    (some (change evt), record s { fault_events = put fault_event_id (change evt) s.fault_events })

abbrev pub with_status : FaultEventStatus → FaultEvent → FaultEvent
with_status status evt = record evt { status = status }

unfoldable pub update_fault_status :
    String → FaultEventStatus → GatewayStore → Option FaultEvent × GatewayStore
unfolding update_found
update_fault_status fault_event_id status s =
    update_found fault_event_id (with_status status) (get fault_event_id s.fault_events) s

-- one keyword argument of `update_fault_fields`
pub data Assignment : Type 0 where
  error_signature analysis kb_article_id kb_title : String → Assignment
  kb_score : Score → Assignment

unfoldable pub assign : FaultEvent → Assignment → FaultEvent
assign evt (error_signature x) = record evt { error_signature = some x }
assign evt (analysis x) = record evt { analysis = some x }
assign evt (kb_article_id x) = record evt { kb_article_id = some x }
assign evt (kb_title x) = record evt { kb_title = some x }
assign evt (kb_score x) = record evt { kb_score = some x }

unfoldable pub assign_all : List Assignment → FaultEvent → FaultEvent
unfolding assign
assign_all [] evt = evt
assign_all (a ∷ as_) evt = assign_all as_ (assign evt a)

unfoldable pub update_fault_fields :
    String → List Assignment → GatewayStore → Option FaultEvent × GatewayStore
unfolding update_found assign_all
update_fault_fields fault_event_id fields s =
    update_found fault_event_id (assign_all fields) (get fault_event_id s.fault_events) s

unfoldable pub list_faults : GatewayStore → List FaultEvent
list_faults s = values s.fault_events

unfoldable pub get_fault : String → GatewayStore → Option FaultEvent
get_fault fault_id s = get fault_id s.fault_events

unfoldable pub has_fault : String → GatewayStore → Bool
has_fault fault_id s = contains fault_id s.fault_events

unfoldable pub list_assets : GatewayStore → List AssetRecord
list_assets s = values s.assets

unfoldable pub get_asset : String → GatewayStore → Option AssetRecord
get_asset asset_id s = get asset_id s.assets

unfoldable pub has_asset : String → GatewayStore → Bool
has_asset asset_id s = contains asset_id s.assets

unfoldable pub set_asset : AssetRecord → GatewayStore → GatewayStore
set_asset asset s = record s { assets = put asset.id asset s.assets }

abbrev pub new_notification : String → Timestamp → String → String → String → Notification
new_notification id now fault_event_id title body = record {
  id = id;
  fault_event_id = fault_event_id;
  title = title;
  body = body;
  read = false;
  ts = now;
}

unfoldable pub create_notification :
    String → Timestamp → String → String → String → GatewayStore → Notification × GatewayStore
create_notification id now fault_event_id title body s =
    let notif = new_notification id now fault_event_id title body in
    (notif, record s { notifications = put notif.id notif s.notifications })

mark_found : String → Option Notification → GatewayStore → Bool × GatewayStore
mark_found notification_id none s = (false, s)
mark_found notification_id (some n) s = (
  true,
  record s { notifications = put notification_id (record n { read = true }) s.notifications },
)

unfoldable pub mark_read : String → GatewayStore → Bool × GatewayStore
unfolding mark_found
mark_read notification_id s = mark_found notification_id (get notification_id s.notifications) s

unfoldable pub list_notifications : GatewayStore → List Notification
list_notifications s = values s.notifications

unfoldable pub unread : List Notification → ℕ
unread [] = 0
unread (n ∷ ns) = let rest = unread ns in if n.read then rest else suc rest

unfoldable pub get_unread_count : GatewayStore → ℕ
unfolding unread
get_unread_count s = unread (values s.notifications)

abbrev pub new_activity : String → Timestamp → String → String → String → ActivityEvent
new_activity id now fault_event_id step message = record {
  id = id;
  fault_event_id = fault_event_id;
  step = step;
  message = message;
  ts = now;
}

unfoldable pub create_activity :
    String → Timestamp → String → String → String → GatewayStore → ActivityEvent × GatewayStore
create_activity id now fault_event_id step message s =
    let evt = new_activity id now fault_event_id step message in
    (evt, record s { activity_events = s.activity_events ++ evt ∷ [] })

unfoldable pub list_activity_events : GatewayStore → List ActivityEvent
list_activity_events s = s.activity_events

unfoldable pub set_pending_token : String → String → GatewayStore → GatewayStore
set_pending_token fault_id token s = record s {
  pending_tokens = put fault_id token s.pending_tokens;
}

unfoldable pub get_pending_token : String → GatewayStore → Option String
get_pending_token fault_id s = get fault_id s.pending_tokens

abbrev pub healed : AssetRecord → AssetRecord
healed a = record { id = a.id; type = a.type; state = healthy; active_fault_event_id = none }

-- the loop over `list(self._assets.items())`, which writes to the dict itself
heal_each : Dict AssetRecord → Dict AssetRecord → Dict AssetRecord
heal_each [] d = d
heal_each ((asset_id, rec) ∷ items) d = heal_each items (put asset_id (healed rec) d)

unfoldable pub publish : Sse.Event → GatewayStore → GatewayStore
publish e s = record s { sse = Sse.publish e s.sse }

unfoldable pub reset : GatewayStore → GatewayStore
unfolding heal_each publish
reset s = publish Sse.reset (record s {
  fault_events = [];
  notifications = [];
  activity_events = [];
  pending_tokens = [];
  assets = heal_each s.assets s.assets;
})
