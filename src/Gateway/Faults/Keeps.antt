-- ===== src/Gateway/Faults/Keeps.antt =====
-- services/gateway/router.py and executor.py: the routes that change the store, and the runs of the
-- executor, keep it consistent.
use nemoclaw_lab_cl.Base.{
  ℕ, String, true, Option, none, some, List, [], ◌∷◌, ◌==◌, not, ◌&&◌, ◌≡◌, refl, arith, eq_refl,
  Bool-cases, inl, inr,
}
use nemoclaw_lab_cl.Base.Dict.{contains, contains-put}
use nemoclaw_lab_cl.Models.{
  Timestamp, FaultEvent, FaultEventStatus, ApprovalDecision, is_resolved, faulted,
}
use nemoclaw_lab_cl.Packs.{LoadedPack}
use nemoclaw_lab_cl.Gateway.Store
use nemoclaw_lab_cl.Gateway.Store.{GatewayStore, AssetRecord, healed}
use nemoclaw_lab_cl.Gateway.Store.Invariant.{
  IsConsistent, IsConsistent-publish, IsConsistent-create_fault_event, IsConsistent-set_asset,
  IsConsistent-create_notification, IsConsistent-update_fault_status,
  IsConsistent-update_fault_fields, IsConsistent-create_activity, IsConsistent-mark_read,
}
use nemoclaw_lab_cl.Gateway.Store.Reset.{IsConsistent-reset}
use nemoclaw_lab_cl.McpTools.Server.{McpState}
use nemoclaw_lab_cl.Gateway.Executor.{Started, Reply, run}
use nemoclaw_lab_cl.Gateway.Executor.Outcome.{run_asset}
use nemoclaw_lab_cl.Gateway.Decision.{Environment, post_decision}
use nemoclaw_lab_cl.Gateway.Decision.Keeps.{IsConsistent-post_decision}
use nemoclaw_lab_cl.Gateway.Faults.{
  CreateFaultRequest, Draws, create_fault, link_asset, link_known, new_fault, labels_or_default,
  heal_found, status_answer, update_fault_status, UpdateDiagnosisRequest, dump_given,
  diagnosis_answer, update_fault_diagnosis, mark_notification_read, ActivityRequest, post_activity,
}

IsConsistent-link_asset :
    {s : GatewayStore} (f : String) (o : Option AssetRecord)
    → contains f s.fault_events ≡ true
    → IsConsistent s
    → IsConsistent (link_asset f o s)
unfolding link_asset
IsConsistent-link_asset f none known h = h
IsConsistent-link_asset f (some a) known h =
    IsConsistent-set_asset
      (record { id = a.id; type = a.type; state = faulted; active_fault_event_id = some f }) known h

IsConsistent-link_known :
    {s : GatewayStore} (f asset_id : String)
    → contains f s.fault_events ≡ true
    → IsConsistent s
    → IsConsistent (link_known f asset_id s)
unfolding link_known
IsConsistent-link_known {s} f asset_id known h = elim (Bool-cases (Store.has_asset asset_id s)) [
  | inl e ↦ rw e (IsConsistent-link_asset f (Store.get_asset asset_id s) known h)
  | inr e ↦ rw e h
]

faults-link_known :
    (f asset_id : String) (s : GatewayStore)
    → (link_known f asset_id s).fault_events ≡ s.fault_events
unfolding link_known link_asset Store.set_asset
faults-link_known f asset_id s = ground arith

pub IsConsistent-create_fault :
    {s : GatewayStore} (loaded : LoadedPack) (body : CreateFaultRequest) (d : Draws)
    → IsConsistent s
    → IsConsistent (create_fault loaded body d s).1
unfolding create_fault Store.create_fault_event
IsConsistent-create_fault {s} loaded body d h =
    let n =
      new_fault loaded body
        (labels_or_default loaded body.scenario_id body.remediation_step_labels) in
    let s1 = (Store.create_fault_event d.fault_id d.detected_at n s).1 in
    let there : contains d.fault_id s1.fault_events ≡ true = rw (contains-put, eq_refl) refl in
    let linked =
      IsConsistent-link_known d.fault_id body.asset_id there
        (IsConsistent-create_fault_event d.fault_id d.detected_at n h) in
    IsConsistent-publish _ (
      IsConsistent-publish _ (
        IsConsistent-publish _ (
          IsConsistent-create_notification d.notification_id d.notified_at d.fault_id _ _
            (rw (faults-link_known d.fault_id body.asset_id s1) there) linked)))

IsConsistent-heal_found :
    {s : GatewayStore} (evt : FaultEvent) (o : Option AssetRecord)
    → IsConsistent s
    → IsConsistent (heal_found evt o s)
unfolding heal_found
IsConsistent-heal_found evt none h = h
IsConsistent-heal_found evt (some a) h =
    IsConsistent-publish _ (IsConsistent-set_asset (healed a) refl h)

IsConsistent-status_answer :
    {s : GatewayStore} (status : FaultEventStatus) (o : Option FaultEvent)
    → IsConsistent s
    → IsConsistent (status_answer status (o, s)).1
unfolding status_answer
IsConsistent-status_answer status none h = h
IsConsistent-status_answer {s} status (some evt) h =
    elim (Bool-cases
      (is_resolved status && (not (evt.asset_id == "") && Store.has_asset evt.asset_id s))) [
        | inl e ↦ rw e (
            IsConsistent-publish _ (IsConsistent-heal_found evt (Store.get_asset evt.asset_id s) h))
        | inr e ↦ rw e (IsConsistent-publish _ h)
      ]

IsConsistent-diagnosis_answer :
    {s : GatewayStore} (o : Option FaultEvent)
    → IsConsistent s
    → IsConsistent (diagnosis_answer (o, s)).1
unfolding diagnosis_answer
IsConsistent-diagnosis_answer none h = h
IsConsistent-diagnosis_answer (some evt) h = IsConsistent-publish _ h

-- a request to one of the routes that change the store, or a run of the executor, with what it draws
-- and what its calls to the other services meet
pub data Route : Type 0 where
  create : CreateFaultRequest → Draws → Route
  status : String → FaultEventStatus → Route
  diagnosis : String → UpdateDiagnosisRequest → Route
  read : String → Route
  activity : ActivityRequest → String → Timestamp → Route
  reset : Route
  decision : String → ApprovalDecision → Environment → McpState → Route
  execution :
      (ℕ → String × Timestamp) → ℕ → Started → (String → String → List String → Reply) → Route

unfoldable pub serve : LoadedPack → Route → GatewayStore → GatewayStore
serve loaded (create body d) s = (create_fault loaded body d s).1
serve loaded (status f st) s = (update_fault_status f st s).1
serve loaded (diagnosis f body) s = (update_fault_diagnosis f body s).1
serve loaded (read id) s = (mark_notification_read id s).1
serve loaded (activity body id now) s = (post_activity body id now s).1
serve loaded reset s = Store.reset s
serve loaded (decision f d env mcp) s = (post_decision f d env s mcp).store
serve loaded (execution draw drawn r execute_fn) s =
    (run draw r execute_fn (record { store = s; drawn = drawn })).1.store

unfoldable pub serve_all : LoadedPack → List Route → GatewayStore → GatewayStore
serve_all loaded [] s = s
serve_all loaded (r ∷ rs) s = serve_all loaded rs (serve loaded r s)

IsConsistent-mark_notification_read :
    {s : GatewayStore} (id : String) → IsConsistent s → IsConsistent (mark_notification_read id s).1
unfolding mark_notification_read
IsConsistent-mark_notification_read {s} id h = elim (Bool-cases (Store.mark_read id s).0) [
  | inl e ↦ rw e (IsConsistent-mark_read id h)
  | inr e ↦ rw e (IsConsistent-mark_read id h)
]

IsConsistent-serve :
    {s : GatewayStore} (loaded : LoadedPack) (r : Route)
    → IsConsistent s
    → IsConsistent (serve loaded r s)
unfolding serve update_fault_status update_fault_diagnosis post_activity
IsConsistent-serve loaded (create body d) h = IsConsistent-create_fault loaded body d h
IsConsistent-serve {s} loaded (status f st) h =
    IsConsistent-status_answer st (Store.update_fault_status f st s).0
      (IsConsistent-update_fault_status f st h)
IsConsistent-serve {s} loaded (diagnosis f body) h =
    IsConsistent-diagnosis_answer (Store.update_fault_fields f (dump_given body) s).0
      (IsConsistent-update_fault_fields f (dump_given body) h)
IsConsistent-serve loaded (read id) h = IsConsistent-mark_notification_read id h
IsConsistent-serve loaded (activity body id now) h =
    IsConsistent-publish _
      (IsConsistent-create_activity id now body.fault_event_id body.step body.message h)
IsConsistent-serve loaded reset h = IsConsistent-reset h
IsConsistent-serve loaded (decision f d env mcp) h = IsConsistent-post_decision d env f mcp h
IsConsistent-serve {s} loaded (execution draw drawn r execute_fn) h =
    (run_asset draw r execute_fn (record { store = s; drawn = drawn }) r.asset_id h).1

-- Any sequence of requests that report, update, diagnose, decide, read, narrate and reset, and of runs
-- of the executor, keeps the store consistent: a healthy asset has no fault link, a faulted one links to a fault event that is there,
-- every notification is about one that is there, and the records stand under their own ids.
pub serve_all-IsConsistent :
    (loaded : LoadedPack) (rs : List Route) (s : GatewayStore)
    → IsConsistent s
    → IsConsistent (serve_all loaded rs s)
unfolding serve_all
serve_all-IsConsistent loaded [] s h = h
serve_all-IsConsistent loaded (r ∷ rs) s h =
    serve_all-IsConsistent loaded rs (serve loaded r s) (IsConsistent-serve loaded r h)
