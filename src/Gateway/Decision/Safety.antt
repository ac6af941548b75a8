-- ===== src/Gateway/Decision/Safety.antt =====
-- services/gateway/router.py: what a decision may and may not set in motion.
use mathlib.Core.Option
use nemoclaw_lab_cl.Base.{
  String, Bool, true, Option, none, some, ◌==◌, if◌then◌else◌, ◌≡◌, refl, ◌∙◌, arith, eq_iff,
  Option-cases, inl, inr,
}
use nemoclaw_lab_cl.Base.Dict.{get-put_self}
use nemoclaw_lab_cl.Models.{FaultEvent, FaultEventStatus, ApprovalDecision, approved, ApprovalToken}
use nemoclaw_lab_cl.McpTools.TokenStore
use nemoclaw_lab_cl.McpTools.TokenStore.Laws.{fresh_token}
use nemoclaw_lab_cl.McpTools.Server.{McpState, mint_token}
use nemoclaw_lab_cl.Gateway.Store
use nemoclaw_lab_cl.Gateway.Store.{GatewayStore, with_status}
use nemoclaw_lab_cl.Gateway.Store.Laws.{get_fault-update_fault_status}
use nemoclaw_lab_cl.Gateway.Executor.{Started}
use nemoclaw_lab_cl.Base.Http.{Delivery, handled}
use nemoclaw_lab_cl.Gateway.Decision.{
  Environment, registered, with_token, go_ahead, failed, after_mint, after_register, decide, deny,
  decide_found, post_decision,
}
use nemoclaw_lab_cl.Gateway.Decision.Approved.{plan}

deny-store :
    (f j : String) (o : Option FaultEvent) (s : GatewayStore) (mcp : McpState)
    → Store.get_fault j (deny f (o, s) mcp).store ≡ Store.get_fault j s
unfolding deny Store.get_fault Store.publish
deny-store f j none s mcp = refl
deny-store f j (some e) s mcp = refl

deny-mcp :
    (f : String) (o : Option FaultEvent) (s : GatewayStore) (mcp : McpState)
    → ((deny f (o, s) mcp).mcp ≡ mcp) × ((deny f (o, s) mcp).started ≡ none)
unfolding deny
deny-mcp f none s mcp = (refl, refl)
deny-mcp f (some e) s mcp = (refl, refl)

-- A denial, whatever the environment, mints nothing, registers nothing and starts nothing; it marks
-- the named fault event as denied, if it is there, and leaves every other as it was.
pub denied_effect :
    (f j : String) (env : Environment) (s : GatewayStore) (mcp : McpState)
    → ((post_decision f ApprovalDecision.denied env s mcp).mcp ≡ mcp)
      × ((post_decision f ApprovalDecision.denied env s mcp).started ≡ none)
      × (Store.get_fault j (post_decision f ApprovalDecision.denied env s mcp).store ≡ (
          if f == j
          then Option.map (with_status FaultEventStatus.denied) (Store.get_fault j s)
          else Store.get_fault j s))
unfolding post_decision
denied_effect f j env s mcp = elim (Option-cases (Store.get_fault f s)) [
  | inl e ↦ rw (e, decide_found) (refl, refl, ground (arith, e, eq_iff f j))
  | inr (evt, e) ↦
      let o = (Store.update_fault_status f FaultEventStatus.denied s).0 in
      let s' = (Store.update_fault_status f FaultEventStatus.denied s).1 in
      rw (e, decide_found, decide)
        (
          (deny-mcp f o s' mcp).0,
          (deny-mcp f o s' mcp).1,
          deny-store f j o s' mcp ∙ get_fault-update_fault_status f FaultEventStatus.denied s j,
        )
]

-- the token that a start relies on
pub record IsBacked (env : Environment) (f : String) (mcp : McpState) : Type 0 where
  pub token : ApprovalToken
  pub stored : TokenStore.get_token env.fresh_token mcp.token_store ≡ some token
  pub bound : token.fault_event_id ≡ f
  pub approves : token.decision ≡ approved
  pub unused : token.consumed ≡ Bool.false

with_token-IsBacked :
    (env : Environment) (f : String) (mcp : McpState)
    → handled env.minting ≡ true
    → IsBacked env f (with_token env f mcp)
unfolding with_token mint_token TokenStore.mint TokenStore.get_token
with_token-IsBacked env f mcp h = rw h (record {
  token = fresh_token env.fresh_token f approved "human" env.now;
  stored = get-put_self env.fresh_token _ mcp.token_store.tokens;
  bound = refl;
  approves = refl;
  unused = refl;
})

after_mint-started :
    (d : Delivery) (env : Environment) (f : String) (evt : FaultEvent) (s : GatewayStore)
    (mcp : McpState) {r : Started}
    → (after_mint d env f evt s mcp).started ≡ some r
    → (d ≡ Delivery.answered) × (r ≡ plan env f evt) × ((after_mint d env f evt s mcp).mcp ≡ mcp)
unfolding after_mint go_ahead failed
after_mint-started Delivery.answered env f evt s mcp h = (refl, ground (arith, h), refl)
after_mint-started Delivery.rejected env f evt s mcp h = cc
after_mint-started Delivery.lost env f evt s mcp h = cc
after_mint-started Delivery.unanswered env f evt s mcp h = cc

after_register-started :
    (d : Delivery) (env : Environment) (f : String) (evt : FaultEvent) (s : GatewayStore)
    (mcp : McpState) {r : Started}
    → (after_register d env f evt s mcp).started ≡ some r
    → (r ≡ plan env f evt) × IsBacked env f (after_register d env f evt s mcp).mcp
unfolding after_register failed handled
after_register-started Delivery.lost env f evt s mcp h = cc
after_register-started Delivery.unanswered env f evt s mcp h = cc
after_register-started Delivery.answered env f evt s mcp h =
    let (minted, shape, same) =
      after_mint-started env.minting env f evt s (with_token env f mcp) h in
    (shape, rw same (with_token-IsBacked env f mcp (rw minted refl)))
after_register-started Delivery.rejected env f evt s mcp h =
    let (minted, shape, same) =
      after_mint-started env.minting env f evt s (with_token env f mcp) h in
    (shape, rw same (with_token-IsBacked env f mcp (rw minted refl)))

decide-started :
    (decision : ApprovalDecision) (env : Environment) (f : String) (evt : FaultEvent)
    (s : GatewayStore) (mcp : McpState) {r : Started}
    → (decide decision env f evt s mcp).started ≡ some r
    → (decision ≡ approved)
      × (r ≡ plan env f evt)
      × IsBacked env f (decide decision env f evt s mcp).mcp
unfolding decide
decide-started ApprovalDecision.denied env f evt s mcp h =
    let nothing =
      (deny-mcp f (Store.update_fault_status f FaultEventStatus.denied s).0
        (Store.update_fault_status f FaultEventStatus.denied s).1 mcp).1 in
    absurd (ground (arith, h, nothing))
decide-started ApprovalDecision.approved env f evt s mcp h =
    let (shape, backed) =
      after_register-started env.registering env f evt s (registered env f evt mcp) h in
    (refl, shape, backed)

-- An execution is started only by an approval of a fault event that is there. It runs with the
-- Orchestrator's steps on that fault event's asset, and its token is stored in MCP Tools: approved,
-- bound to this fault event and not consumed.
pub started-IsBacked :
    (f : String) (decision : ApprovalDecision) (env : Environment) (s : GatewayStore)
    (mcp : McpState) (r : Started)
    → (post_decision f decision env s mcp).started ≡ some r
    → (decision ≡ approved)
      × (evt : FaultEvent) × (Store.get_fault f s ≡ some evt)
      × (r ≡ plan env f evt)
      × IsBacked env f (post_decision f decision env s mcp).mcp
unfolding post_decision
started-IsBacked f decision env s mcp r h = elim (Option-cases (Store.get_fault f s)) [
  | inl e ↦ absurd (ground (arith, e))
  | inr (evt, e) ↦
      let (is_approval, shape, backed) =
        decide-started decision env f evt s mcp {r = r} (rw (e, decide_found) at h) in
      (is_approval, evt, e, shape, rw (e, decide_found) backed)
]
