-- ===== src/Gateway/Faults.antt =====
-- services/gateway/router.py: the handlers of the fault lifecycle. Each takes the store last and
-- returns the response, or the `HTTPException`, beside the new store.
pub mod Lifecycle
pub mod Routes
pub mod Keeps
use nemoclaw_lab_cl.Base.{
  ℕ, String, Bool, true, false, Option, none, some, List, [], ◌∷◌, ◌++◌, ◌==◌, not, ◌&&◌,
  if◌then◌else◌, Result, ok, err, length,
}
use nemoclaw_lab_cl.Base.Text.{text}
use nemoclaw_lab_cl.Base.Http.{HttpError}
use nemoclaw_lab_cl.Models.{
  Timestamp, Score, FaultEvent, FaultEventStatus, is_resolved, healthy, faulted, Notification,
  ActivityEvent,
}
use nemoclaw_lab_cl.Packs.{LoadedPack}
use nemoclaw_lab_cl.Gateway.Sse
use nemoclaw_lab_cl.Gateway.Store
use nemoclaw_lab_cl.Gateway.Store.{GatewayStore, AssetRecord, Assignment, healed}
use nemoclaw_lab_cl.Gateway.Runbook.{impact_for_scenario, step_labels_for_scenario}

abbrev pub Response : Type 0 → Type 0
Response A = Result HttpError A × GatewayStore

abbrev pub fault_not_found : HttpError
fault_not_found = record { status_code = 404; detail = "fault_not_found" }

pub record CreateFaultRequest : Type 0 where
  pub scenario_id : String
  pub asset_id : String
  pub kb_article_id : Option String
  pub log_extract : Option String
  pub remediation_step_labels : List String

-- the ids and times that one `create_fault` draws
pub record Draws : Type 0 where
  pub fault_id : String
  pub detected_at : Timestamp
  pub notification_id : String
  pub notified_at : Timestamp

labels_or_default : LoadedPack → String → List String → List String
labels_or_default loaded scenario_id [] = step_labels_for_scenario loaded scenario_id
labels_or_default loaded scenario_id (l ∷ ls) = l ∷ ls

link_asset : String → Option AssetRecord → GatewayStore → GatewayStore
link_asset fault_id none s = s
link_asset fault_id (some asset) s =
    Store.set_asset
      (record {
        id = asset.id;
        type = asset.type;
        state = faulted;
        active_fault_event_id = some fault_id;
      })
      s

-- "Update asset state to faulted", if the asset is known
link_known : String → String → GatewayStore → GatewayStore
link_known fault_id asset_id s =
    if Store.has_asset asset_id s then link_asset fault_id (Store.get_asset asset_id s) s else s

-- `body.log_extract or f"…"`: an empty extract counts as none
notification_body : CreateFaultRequest → Option String → String
notification_body body none = text ("Scenario " ∷ body.scenario_id ∷ " triggered." ∷ [])
notification_body body (some extract) =
    if extract == "" then text ("Scenario " ∷ body.scenario_id ∷ " triggered." ∷ []) else extract

new_fault : LoadedPack → CreateFaultRequest → List String → Store.NewFault
new_fault loaded body labels = record {
  scenario_id = body.scenario_id;
  asset_id = body.asset_id;
  kb_article_id = body.kb_article_id;
  log_extract = body.log_extract;
  remediation_step_labels = labels;
  impact = some (impact_for_scenario loaded body.scenario_id body.asset_id (length labels));
}

unfoldable pub create_fault :
    LoadedPack → CreateFaultRequest → Draws → GatewayStore → FaultEvent × GatewayStore
unfolding labels_or_default link_asset link_known notification_body new_fault
create_fault loaded body d s =
    let labels = labels_or_default loaded body.scenario_id body.remediation_step_labels in
    let (evt, s1) =
      Store.create_fault_event d.fault_id d.detected_at (new_fault loaded body labels) s in
    let s2 = link_known evt.id body.asset_id s1 in
    let (notif, s3) =
      Store.create_notification d.notification_id d.notified_at evt.id
        (text ("Fault detected on " ∷ body.asset_id ∷ [])) (notification_body body body.log_extract)
        s2 in
    let s4 = Store.publish (Sse.fault evt) s3 in
    let s5 = Store.publish (Sse.notification notif) s4 in
    (evt, Store.publish (Sse.asset body.asset_id faulted (some evt.id)) s5)

heal_found : FaultEvent → Option AssetRecord → GatewayStore → GatewayStore
heal_found updated none s = s
heal_found updated (some asset) s =
    Store.publish (Sse.asset updated.asset_id healthy none) (Store.set_asset (healed asset) s)

status_answer : FaultEventStatus → Option FaultEvent × GatewayStore → Response FaultEvent
status_answer status (none, s) = (err fault_not_found, s)
status_answer status (some updated, s) =
    let s1 =
      if is_resolved status && (not (updated.asset_id == "") && Store.has_asset updated.asset_id s)
      then heal_found updated (Store.get_asset updated.asset_id s) s
      else s in
    (ok updated, Store.publish (Sse.fault updated) s1)

unfoldable pub update_fault_status : String → FaultEventStatus → GatewayStore → Response FaultEvent
unfolding heal_found status_answer is_resolved
update_fault_status fault_id status s =
    status_answer status (Store.update_fault_status fault_id status s)

pub record UpdateDiagnosisRequest : Type 0 where
  pub error_signature : Option String
  pub analysis : Option String
  pub kb_article_id : Option String
  pub kb_title : Option String
  pub kb_score : Option Score

abbrev given {ℓ} : {A : Type ℓ} → (A → Assignment) → Option A → List Assignment
given set none = []
given set (some x) = set x ∷ []

-- `body.model_dump(exclude_none=True)`
unfoldable pub dump_given : UpdateDiagnosisRequest → List Assignment
dump_given b =
    given Assignment.error_signature b.error_signature
    ++ (given Assignment.analysis b.analysis
        ++ (given Assignment.kb_article_id b.kb_article_id
            ++ (given Assignment.kb_title b.kb_title ++ given Assignment.kb_score b.kb_score)))

diagnosis_answer : Option FaultEvent × GatewayStore → Response FaultEvent
diagnosis_answer (none, s) = (err fault_not_found, s)
diagnosis_answer (some updated, s) = (ok updated, Store.publish (Sse.fault updated) s)

unfoldable pub update_fault_diagnosis :
    String → UpdateDiagnosisRequest → GatewayStore → Response FaultEvent
unfolding diagnosis_answer dump_given
update_fault_diagnosis fault_id body s =
    diagnosis_answer (Store.update_fault_fields fault_id (dump_given body) s)

unfoldable pub get_fault : String → GatewayStore → Result HttpError FaultEvent
get_fault fault_id s = elim (Store.get_fault fault_id s) [
  | none ↦ err fault_not_found
  | some evt ↦ ok evt
]

unfoldable pub get_token : String → GatewayStore → Result HttpError String
get_token fault_id s =
    if Store.has_fault fault_id s
    then elim (Store.get_pending_token fault_id s) [
      | none ↦ err (record { status_code = 404; detail = "token_not_available" })
      | some token ↦ ok token
    ]
    else err fault_not_found

unfoldable pub mark_notification_read : String → GatewayStore → Response (Unit {0})
mark_notification_read notification_id s =
    let (found, s') = Store.mark_read notification_id s in
    if found
    then (ok tt, s')
    else (err (record { status_code = 404; detail = "notification_not_found" }), s')

pub record ActivityRequest : Type 0 where
  pub fault_event_id : String
  pub step : String
  pub message : String

unfoldable pub post_activity :
    ActivityRequest → String → Timestamp → GatewayStore → ActivityEvent × GatewayStore
post_activity body id now s =
    let (evt, s') = Store.create_activity id now body.fault_event_id body.step body.message s in
    (evt, Store.publish (Sse.activity evt) s')
