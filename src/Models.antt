-- ===== src/Models.antt =====
-- libs/common/models.py: the authored pack content and the runtime entities, after validation.
-- A `datetime` is a number, a similarity score the rank of its float, an absent value `none`.
use nemoclaw_lab_cl.Base.{ℕ, String, Bool, true, false, Option, List}

abbrev pub Timestamp : Type 0
Timestamp = ℕ

abbrev pub Score : Type 0
Score = ℕ

pub data MonitoringAdapterType : Type 0 where
  redfish generic opcua : MonitoringAdapterType

pub record AssetNoun : Type 0 where
  pub singular : String
  pub plural : String

pub record PackAsset : Type 0 where
  pub id : String
  pub display_name : Option String
  pub image_url : Option String

pub data FleetLayout : Type 0 where
  grid list : FleetLayout

pub record Pack : Type 0 where
  pub id : String
  pub name : String
  pub asset_noun : AssetNoun
  pub fleet_label : String
  pub monitoring_adapter : MonitoringAdapterType
  pub theme : String
  pub sentinel_name : String
  pub asset_image_url : Option String
  pub asset_spec_label : Option String
  pub fleet_layout : FleetLayout
  pub assets : List PackAsset

pub record EmitEvent : Type 0 where
  pub severity : String
  pub message_id : String

pub record EmitLogEntry : Type 0 where
  pub severity : String
  pub message : String

pub record ScenarioEmit : Type 0 where
  pub event : EmitEvent
  pub log_entries : List EmitLogEntry

pub record RemediationStep : Type 0 where
  pub id : String
  pub label : String

pub record ScenarioImpact : Type 0 where
  pub summary : String
  pub workload_impact : String
  pub service_risk : String
  pub estimated_duration : String

pub data ScenarioStatus : Type 0 where
  active scaffold : ScenarioStatus

pub record Scenario : Type 0 where
  pub id : String
  pub pack_id : String
  pub target_asset : String
  pub fault_type : String
  pub emit : ScenarioEmit
  pub log_bundle_ref : String
  pub error_signatures : List String
  pub kb_article_ref : String
  pub remediation_steps : List RemediationStep
  pub impact : Option ScenarioImpact
  pub log_extract : Option String
  pub status : ScenarioStatus

pub record SimulatorAssetHealthyState : Type 0 where
  pub system_status : String
  pub power_status : String
  pub gpu_count : ℕ

pub record SimulatorAsset : Type 0 where
  pub id : String
  pub type : String
  pub healthy_state : SimulatorAssetHealthyState

pub record SimulatorProfile : Type 0 where
  pub pack_id : String
  pub assets : List SimulatorAsset

pub record KbArticle : Type 0 where
  pub id : String
  pub pack_id : String
  pub title : String
  pub body_md : String
  pub remediation_step_ids : List String

pub data AssetState : Type 0 where
  healthy faulted : AssetState

pub data FaultEventStatus : Type 0 where
  detected diagnosing awaiting_approval remediating resolved denied : FaultEventStatus

pub record FaultEvent : Type 0 where
  pub id : String
  pub scenario_id : String
  pub asset_id : String
  pub detected_at : Timestamp
  pub status : FaultEventStatus
  pub kb_article_id : Option String
  pub log_extract : Option String
  pub remediation_step_labels : List String
  pub error_signature : Option String
  pub analysis : Option String
  pub kb_title : Option String
  pub kb_score : Option Score
  pub impact : Option ScenarioImpact

pub record Notification : Type 0 where
  pub id : String
  pub fault_event_id : String
  pub title : String
  pub body : String
  pub read : Bool
  pub ts : Timestamp

pub record ActivityEvent : Type 0 where
  pub id : String
  pub fault_event_id : String
  pub step : String
  pub message : String
  pub ts : Timestamp

pub data ApprovalDecision : Type 0 where
  approved denied : ApprovalDecision

pub record ApprovalToken : Type 0 where
  pub token : String
  pub fault_event_id : String
  pub decision : ApprovalDecision
  pub decided_by : String
  pub decided_at : Timestamp
  pub consumed : Bool

-- `status == FaultEventStatus.resolved`
unfoldable pub is_resolved : FaultEventStatus → Bool
is_resolved FaultEventStatus.resolved = true
is_resolved _ = false

-- `decision == ApprovalDecision.approved`
unfoldable pub is_approved : ApprovalDecision → Bool
is_approved ApprovalDecision.approved = true
is_approved ApprovalDecision.denied = false
