-- ===== src/McpTools/Remediation/Replay.antt =====
-- services/mcp_tools/tools/remediation.py: what a resolved call has written, and what becomes of a
-- second call with the same token.
use nemoclaw_lab_cl.Base.{
  String, Bool, true, some, ◌≡◌, ◌≢◌, refl, sym, ap, ◌∙◌, eq_refl, arith, eq_iff, ok, err,
  Result-cases, ◌==◌, if◌then◌else◌, inl, inr,
}
use nemoclaw_lab_cl.Models.{ApprovalToken, approved, is_approved}
use nemoclaw_lab_cl.McpTools.TokenStore
use nemoclaw_lab_cl.McpTools.TokenStore.{ApprovalTokenStore}
use nemoclaw_lab_cl.McpTools.TokenStore.Laws.{used, get_token-consume}
use nemoclaw_lab_cl.McpTools.FaultRegistry.{FaultEventRegistry}
use nemoclaw_lab_cl.McpTools.Remediation.{
  RemediationError, token_consumed, Resolved, Call, required, validate, finish, finish_valid,
  remediation_execute,
}
use nemoclaw_lab_cl.McpTools.Remediation.Security.{Authorised, validate_sound}

pub resolved-store :
    (c : Call) (clear_fn : String → Bool) (ts : ApprovalTokenStore) (reg : FaultEventRegistry)
    (r : Resolved)
    → (remediation_execute c clear_fn ts reg).0 ≡ ok r
    → (r ≡ record { fault_event_id = c.fault_event_id; executed = c.step_ids })
      × (asset_id : String) × (a : Authorised c ts reg asset_id) × ((remediation_execute c clear_fn
            ts reg).1
          ≡ TokenStore.consume a.token_str ts)
unfolding finish finish_valid remediation_execute
resolved-store c clear_fn ts reg r h = elim (Result-cases (validate c ts reg)) [
  | inl (p, v) ↦
      let (a, same, tok) = validate_sound c ts reg p v in
      let cleared : clear_fn p.asset_id ≡ true = ground (arith, v) in
      let key : a.token_str ≡ p.token_str = cc (tok, a.presented) in
      (
        ground (arith, v, cleared, same),
        p.asset_id,
        a,
        rw (v, finish_valid, cleared) (ap (λ t. TokenStore.consume t ts) (sym key)),
      )
  | inr (x, v) ↦ absurd (ground (arith, v))
]

-- A resolved call was authorised, ran exactly the steps that were asked for, and changed one
-- token: the presented one, which is consumed.
pub resolved_effect :
    (c : Call) (clear_fn : String → Bool) (ts : ApprovalTokenStore) (reg : FaultEventRegistry)
    (r : Resolved)
    → (remediation_execute c clear_fn ts reg).0 ≡ ok r
    → (r ≡ record { fault_event_id = c.fault_event_id; executed = c.step_ids })
      × (asset_id : String) × (a : Authorised c ts reg asset_id) × ((j : String)
          → TokenStore.get_token j (remediation_execute c clear_fn ts reg).1
            ≡ (if a.token_str == j then some (used a.token) else TokenStore.get_token j ts))
resolved_effect c clear_fn ts reg r h =
    let (shape, asset_id, a, written) = resolved-store c clear_fn ts reg r h in
    (shape, asset_id, a, λ j. rw written (get_token-consume a.token_str j a.token ts a.stored))

validate-consumed :
    (c : Call) (ts : ApprovalTokenStore) (reg : FaultEventRegistry) (t : String)
    (tok : ApprovalToken)
    → c.approval_token ≡ some t
    → t ≢ ""
    → TokenStore.get_token t ts ≡ some tok
    → tok.fault_event_id ≡ c.fault_event_id
    → tok.decision ≡ approved
    → tok.consumed ≡ true
    → validate c ts reg ≡ err token_consumed
unfolding validate required is_approved
validate-consumed c ts reg t tok h1 h2 h3 h4 h5 h6 =
    ground (arith, eq_iff t "", eq_iff tok.fault_event_id c.fault_event_id)

execute-refused :
    (c : Call) (clear_fn : String → Bool) (ts : ApprovalTokenStore) (reg : FaultEventRegistry)
    (e : RemediationError)
    → validate c ts reg ≡ err e
    → (remediation_execute c clear_fn ts reg).0 ≡ err e
unfolding remediation_execute finish_valid
execute-refused c clear_fn ts reg e v = rw (v, finish_valid)

-- After a call has resolved, a call for the same fault event with the same token is refused as
-- `token_consumed`, whatever its steps, the registry and the Simulator then say.
pub replay_refused :
    (c again : Call) (clear_fn clear_again : String → Bool) (ts : ApprovalTokenStore)
    (reg reg_again : FaultEventRegistry) (r : Resolved)
    → (remediation_execute c clear_fn ts reg).0 ≡ ok r
    → again.approval_token ≡ c.approval_token
    → again.fault_event_id ≡ c.fault_event_id
    → (remediation_execute again clear_again (remediation_execute c clear_fn ts reg).1 reg_again).0
      ≡ err token_consumed
replay_refused c again clear_fn clear_again ts reg reg_again r h same_token same_fault =
    let (_, asset_id, a, after) = resolved_effect c clear_fn ts reg r h in
    let stored = after a.token_str in
    execute-refused again clear_again (remediation_execute c clear_fn ts reg).1 reg_again
      token_consumed
      (validate-consumed again (remediation_execute c clear_fn ts reg).1 reg_again a.token_str
        (used a.token) (same_token ∙ a.presented) a.non_empty (rw eq_refl at stored)
        (a.bound ∙ sym same_fault) a.approves refl)
