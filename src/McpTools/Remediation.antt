-- ===== src/McpTools/Remediation.antt =====
-- services/mcp_tools/tools/remediation.py: the token-gated execution. The call of `clear_fn` is an
-- `await`, so the coroutine is two atomic parts: `validate` before it, `finish` after it.
pub mod Security
pub mod Replay
use nemoclaw_lab_cl.Base.{
  String, Bool, Option, none, some, List, [], ◌∷◌, not, ◌==◌, elem, keep, if◌then◌else◌, Result, ok,
  err, ◌>>=◌, ◌>>◌, guard, or_raise,
}
use nemoclaw_lab_cl.Models.{ApprovalToken, is_approved}
use nemoclaw_lab_cl.McpTools.TokenStore
use nemoclaw_lab_cl.McpTools.TokenStore.{ApprovalTokenStore}
use nemoclaw_lab_cl.McpTools.FaultRegistry
use nemoclaw_lab_cl.McpTools.FaultRegistry.{FaultEventRegistry, FaultEventRecord}

pub data RemediationError : Type 0 where
  not_approved token_invalid token_consumed : RemediationError
  step_not_allowed : (invalid_steps : List String) → RemediationError
  simulator_clear_failed : (fault_event_id : String) → RemediationError

-- the returned dict: `status` is "resolved", `asset_state` is "healthy", each step "executed"
pub record Resolved : Type 0 where
  pub fault_event_id : String
  pub executed : List String

pub record Call : Type 0 where
  pub fault_event_id : String
  pub approval_token : Option String
  pub step_ids : List String

-- what the coroutine holds across the `await`
pub record Pending : Type 0 where
  pub call : Call
  pub token_str : String
  pub asset_id : String

-- `if not approval_token`: both `None` and the empty text are refused
required : Option String → Result RemediationError String
required none = err not_approved
required (some s) = if s == "" then err not_approved else ok s

abbrev invalid_steps : List String → List String → List String
invalid_steps step_ids allowed = keep (λ s. not (elem s allowed)) step_ids

check_steps : List String → Result RemediationError (Unit {0})
check_steps [] = ok tt
check_steps (s ∷ rest) = err (step_not_allowed (s ∷ rest))

unfoldable pub validate :
    Call → ApprovalTokenStore → FaultEventRegistry → Result RemediationError Pending
unfolding required check_steps
validate c ts reg = do
  token_str ← required c.approval_token
  token ← or_raise token_invalid (TokenStore.get_token token_str ts)
  guard (token.fault_event_id == c.fault_event_id) token_invalid
  guard (is_approved token.decision) not_approved
  guard (not token.consumed) token_consumed
  rec ← or_raise not_approved (FaultRegistry.get_record c.fault_event_id reg)
  check_steps (invalid_steps c.step_ids rec.allowed_step_ids)
  ok (record { call = c; token_str = token_str; asset_id = rec.asset_id })

unfoldable pub finish :
    Pending → Bool → ApprovalTokenStore → Result RemediationError Resolved × ApprovalTokenStore
finish p cleared ts =
    if cleared
    then (
      ok (record { fault_event_id = p.call.fault_event_id; executed = p.call.step_ids }),
      TokenStore.consume p.token_str ts,
    )
    else (err (simulator_clear_failed p.call.fault_event_id), ts)

finish_valid :
    Result RemediationError Pending
    → (String → Bool)
    → ApprovalTokenStore
    → Result RemediationError Resolved × ApprovalTokenStore
finish_valid (err e) clear_fn ts = (err e, ts)
finish_valid (ok p) clear_fn ts = finish p (clear_fn p.asset_id) ts

-- The coroutine run without interruption; `clear_fn` is the Simulator's answer for an asset.
unfoldable pub remediation_execute :
    Call
    → (String → Bool)
    → ApprovalTokenStore
    → FaultEventRegistry
    → Result RemediationError Resolved × ApprovalTokenStore
unfolding validate finish finish_valid
remediation_execute c clear_fn ts reg = finish_valid (validate c ts reg) clear_fn ts
