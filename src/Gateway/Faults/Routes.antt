-- ===== src/Gateway/Faults/Routes.antt =====
-- services/gateway/router.py: what the status and diagnosis routes write.
use mathlib.Core.Option
use nemoclaw_lab_cl.Base.{
  String, false, Option, none, some, ◌==◌, if◌then◌else◌, ◌≡◌, refl, ap, ◌∙◌, or_raise,
}
use nemoclaw_lab_cl.Base.Dict.{get}
use nemoclaw_lab_cl.Models.{FaultEvent, FaultEventStatus, is_resolved}
use nemoclaw_lab_cl.Gateway.Store
use nemoclaw_lab_cl.Gateway.Store.{GatewayStore, with_status, assign_all}
use nemoclaw_lab_cl.Gateway.Store.Laws.{
  get_fault-update_fault_status, get_fault-update_fault_fields, result-update_fault_status,
  rest-update_fault_status, rest-update_fault_fields,
}
use nemoclaw_lab_cl.Gateway.Faults.{
  UpdateDiagnosisRequest, status_answer, update_fault_status, diagnosis_answer,
  update_fault_diagnosis, dump_given, fault_not_found,
}

-- what both routes answer with and publish changes no fault event and no asset
faults-diagnosis_answer :
    (r : Option FaultEvent × GatewayStore) → (diagnosis_answer r).1.fault_events ≡ r.1.fault_events
unfolding diagnosis_answer Store.publish
faults-diagnosis_answer (none, s) = refl
faults-diagnosis_answer (some evt, s) = refl

assets-diagnosis_answer :
    (r : Option FaultEvent × GatewayStore) → (diagnosis_answer r).1.assets ≡ r.1.assets
unfolding diagnosis_answer Store.publish
assets-diagnosis_answer (none, s) = refl
assets-diagnosis_answer (some evt, s) = refl

module _ (f : String) (body : UpdateDiagnosisRequest) (s : GatewayStore) (j : String) where
  pub get_fault-update_fault_diagnosis : Store.get_fault j (update_fault_diagnosis f body s).1 ≡ (
      if f == j
      then Option.map (assign_all (dump_given body)) (Store.get_fault j s)
      else Store.get_fault j s)
  unfolding update_fault_diagnosis Store.get_fault
  get_fault-update_fault_diagnosis =
      ap (get j) (faults-diagnosis_answer (Store.update_fault_fields f (dump_given body) s))
      ∙ get_fault-update_fault_fields f (dump_given body) s j

  pub get_asset-update_fault_diagnosis :
      Store.get_asset j (update_fault_diagnosis f body s).1 ≡ Store.get_asset j s
  unfolding update_fault_diagnosis Store.get_asset
  get_asset-update_fault_diagnosis =
      ap (get j) (assets-diagnosis_answer (Store.update_fault_fields f (dump_given body) s))
      ∙ ap (get j) (rest-update_fault_fields f (dump_given body) s).assets

module _ (status : FaultEventStatus) (unresolved : is_resolved status ≡ false) where
  faults-status_answer :
      (r : Option FaultEvent × GatewayStore)
      → (status_answer status r).1.fault_events ≡ r.1.fault_events
  unfolding status_answer Store.publish
  faults-status_answer (none, s) = refl
  faults-status_answer (some evt, s) = rw unresolved refl

  assets-status_answer :
      (r : Option FaultEvent × GatewayStore) → (status_answer status r).1.assets ≡ r.1.assets
  unfolding status_answer Store.publish
  assets-status_answer (none, s) = refl
  assets-status_answer (some evt, s) = rw unresolved refl

  pub get_fault-update_fault_status_route :
      (f : String) (s : GatewayStore) (j : String)
      → Store.get_fault j (update_fault_status f status s).1 ≡ (
          if f == j
          then Option.map (with_status status) (Store.get_fault j s)
          else Store.get_fault j s)
  unfolding update_fault_status Store.get_fault
  get_fault-update_fault_status_route f s j =
      ap (get j) (faults-status_answer (Store.update_fault_status f status s))
      ∙ get_fault-update_fault_status f status s j

  pub get_asset-update_fault_status_route :
      (f : String) (s : GatewayStore) (j : String)
      → Store.get_asset j (update_fault_status f status s).1 ≡ Store.get_asset j s
  unfolding update_fault_status Store.get_asset
  get_asset-update_fault_status_route f s j =
      ap (get j) (assets-status_answer (Store.update_fault_status f status s))
      ∙ ap (get j) (rest-update_fault_status f status s).assets

answer-status_answer :
    (status : FaultEventStatus) (r : Option FaultEvent × GatewayStore)
    → (status_answer status r).0 ≡ or_raise fault_not_found r.0
unfolding status_answer
answer-status_answer status (none, s) = refl
answer-status_answer status (some evt, s) = refl

pub answer-update_fault_status :
    (status : FaultEventStatus) (f : String) (s : GatewayStore)
    → (update_fault_status f status s).0
      ≡ or_raise fault_not_found (Option.map (with_status status) (Store.get_fault f s))
unfolding update_fault_status
answer-update_fault_status status f s =
    answer-status_answer status (Store.update_fault_status f status s)
    ∙ ap (or_raise fault_not_found) (result-update_fault_status f status s)
