-- ===== src/Gateway/Executor.antt =====
-- services/gateway/executor.py: `RemediationExecutor`. Ids and times are drawn from a supply; the
-- pauses between narration lines only let other requests in, and `Actions` has that view.
mod Frame
pub mod Outcome
pub mod Feed
use nemoclaw_lab_cl.Base.{
  ℕ, ◌+◌, String, Bool, true, false, Option, none, some, List, [], ◌∷◌, ◌++◌, ◌==◌, not, ◌&&◌,
  if◌then◌else◌, length,
}
use nemoclaw_lab_cl.Base.Dict.{Dict, get}
use nemoclaw_lab_cl.Base.Text.{text, decimal}
use nemoclaw_lab_cl.Models.{
  Timestamp, FaultEventStatus, resolved, remediating, is_resolved, FaultEvent, healthy,
}
use nemoclaw_lab_cl.Gateway.Sse
use nemoclaw_lab_cl.Gateway.Store
use nemoclaw_lab_cl.Gateway.Store.{GatewayStore, AssetRecord, healed}

-- the store, and how many ids and times have been drawn
pub record Node : Type 0 where
  pub store : GatewayStore
  pub drawn : ℕ

-- the arguments of `start`
pub record Started : Type 0 where
  pub fault_id : String
  pub asset_id : String
  pub scenario_id : String
  pub step_ids : List String
  pub step_labels : Dict String
  pub token : String

-- what `execute_fn` does: it returns a dict, of which `status` and `error` are read, or it raises
pub data Reply : Type 0 where
  returned : (status error : Option String) → Reply
  raised : Reply

heal_found : String → Option AssetRecord → GatewayStore → GatewayStore
heal_found asset_id none s = s
heal_found asset_id (some asset) s =
    Store.publish (Sse.asset asset_id healthy none) (Store.set_asset (healed asset) s)

-- `asset_id` is falsy when it is the empty text
heal : FaultEventStatus → String → GatewayStore → GatewayStore
heal status asset_id s =
    if is_resolved status && (not (asset_id == "") && Store.has_asset asset_id s)
    then heal_found asset_id (Store.get_asset asset_id s) s
    else s

status_written : FaultEventStatus → String → Option FaultEvent × GatewayStore → GatewayStore
status_written status asset_id (none, s) = s
status_written status asset_id (some updated, s) =
    Store.publish (Sse.fault updated) (heal status asset_id s)

unfoldable pub set_status : String → String → FaultEventStatus → GatewayStore → GatewayStore
unfolding heal_found heal status_written is_resolved
set_status fault_id asset_id status s =
    status_written status asset_id (Store.update_fault_status fault_id status s)

abbrev label_of : Dict String → String → String
label_of labels step_id = elim (get step_id labels) [ none ↦ step_id | some label ↦ label ]

-- the narration before the call of `execute_fn`
unfoldable pub step_lines : Dict String → List String → List String
step_lines labels [] = []
step_lines labels (step_id ∷ rest) =
    text ("  ▶ " ∷ label_of labels step_id ∷ "…" ∷ [])
    ∷ text ("  ✓ " ∷ label_of labels step_id ∷ " — complete" ∷ [])
    ∷ step_lines labels rest

unfoldable pub opening : Started → List String
unfolding step_lines text decimal
opening r =
    "✅ Approval received — single-use token validated"
    ∷ text ("Beginning remediation: " ∷ decimal (length r.step_ids) ∷ " approved steps" ∷ [])
    ∷ step_lines r.step_labels r.step_ids

is_resolved_text : Option String → Bool
is_resolved_text none = false
is_resolved_text (some s) = s == "resolved"

error_text : Option String → String
error_text none = "unknown"
error_text (some e) = e

module _ (draw : ℕ → String × Timestamp) where
  -- the store's methods do not raise, so the `except` of `_narrate` is not reached
  unfoldable pub narrate : String → String → String → Node → Node
  narrate fault_id step message n =
      let (id, now) = draw n.drawn in
      let (evt, s) = Store.create_activity id now fault_id step message n.store in
      record { store = Store.publish (Sse.activity evt) s; drawn = n.drawn + 1 }

  unfoldable pub narrate_all : String → List String → Node → Node
  narrate_all fault_id [] n = n
  narrate_all fault_id (line ∷ lines) n =
      narrate_all fault_id lines (narrate fault_id "remediate" line n)

  -- what `_run` does up to the call of `execute_fn`
  unfoldable pub before_execute : Started → Node → Node
  before_execute r n =
      narrate_all r.fault_id (opening r)
        (record n { store = set_status r.fault_id r.asset_id remediating n.store })

  succeeded : Started → Node → Node
  succeeded r n =
      let checked =
        narrate r.fault_id "remediate"
          (text ("Remediation complete — verifying " ∷ r.asset_id ∷ " health…" ∷ [])) n in
      narrate r.fault_id "resolved"
        (text ("✅ " ∷ r.asset_id ∷ " returned to healthy state — fault cleared" ∷ []))
        (record checked { store = set_status r.fault_id r.asset_id resolved checked.store })

  -- what `_run` does with the reply, and the text that it returns
  unfoldable pub after_execute : Started → Reply → Node → String × Node
  unfolding succeeded is_resolved_text error_text
  after_execute r (returned status error) n =
      if is_resolved_text status then ("resolved", succeeded r n) else (
        text ("error:" ∷ error_text error ∷ []),
        narrate r.fault_id "remediate" (text ("⚠ Remediation error: " ∷ error_text error ∷ [])) n,
      )
  after_execute r raised n = (
    "error:internal",
    narrate r.fault_id "remediate" "⚠ Remediation error: internal execution failure" n,
  )

  -- `execute_fn` is handed the fault id, the token and the step ids.
  unfoldable pub run : Started → (String → String → List String → Reply) → Node → String × Node
  run r execute_fn n =
      after_execute r (execute_fn r.fault_id r.token r.step_ids) (before_execute r n)
