-- ===== src/Gateway/Decision/Keeps.antt =====
-- services/gateway/router.py: `post_decision` keeps the store consistent.
use nemoclaw_lab_cl.Base.{String, Option, none, some}
use nemoclaw_lab_cl.Base.Http.{Delivery}
use nemoclaw_lab_cl.Models.{FaultEvent, FaultEventStatus, ApprovalDecision, approved}
use nemoclaw_lab_cl.McpTools.Server.{McpState}
use nemoclaw_lab_cl.Gateway.Sse
use nemoclaw_lab_cl.Gateway.Store
use nemoclaw_lab_cl.Gateway.Store.{GatewayStore}
use nemoclaw_lab_cl.Gateway.Store.Invariant.{
  IsConsistent, IsConsistent-publish, IsConsistent-set_pending_token,
  IsConsistent-update_fault_status,
}
use nemoclaw_lab_cl.Gateway.Decision.{
  Environment, deny, failed, go_ahead, after_mint, after_register, decide, decide_found,
  post_decision,
}

IsConsistent-deny :
    (f : String) (o : Option FaultEvent) {s : GatewayStore} (mcp : McpState)
    → IsConsistent s
    → IsConsistent (deny f (o, s) mcp).store
unfolding deny
IsConsistent-deny f none mcp h = h
IsConsistent-deny f (some updated) mcp h = IsConsistent-publish _ (IsConsistent-publish _ h)

module _ (env : Environment) (f : String) (evt : FaultEvent) {s : GatewayStore}
    (h : IsConsistent s) where
  IsConsistent-after_mint :
      (d : Delivery) (mcp : McpState) → IsConsistent (after_mint d env f evt s mcp).store
  unfolding after_mint go_ahead failed
  IsConsistent-after_mint Delivery.answered mcp =
      IsConsistent-publish (Sse.decision f approved)
        (IsConsistent-set_pending_token f env.fresh_token h)
  IsConsistent-after_mint Delivery.rejected mcp = h
  IsConsistent-after_mint Delivery.lost mcp = h
  IsConsistent-after_mint Delivery.unanswered mcp = h

  IsConsistent-after_register :
      (d : Delivery) (mcp : McpState) → IsConsistent (after_register d env f evt s mcp).store
  unfolding after_register failed
  IsConsistent-after_register Delivery.answered mcp = IsConsistent-after_mint env.minting _
  IsConsistent-after_register Delivery.rejected mcp = IsConsistent-after_mint env.minting _
  IsConsistent-after_register Delivery.lost mcp = h
  IsConsistent-after_register Delivery.unanswered mcp = h

  IsConsistent-decide :
      (decision : ApprovalDecision) (mcp : McpState)
      → IsConsistent (decide decision env f evt s mcp).store
  unfolding decide
  IsConsistent-decide ApprovalDecision.denied mcp =
      IsConsistent-deny f (Store.update_fault_status f FaultEventStatus.denied s).0 mcp
        (IsConsistent-update_fault_status f FaultEventStatus.denied h)
  IsConsistent-decide ApprovalDecision.approved mcp = IsConsistent-after_register env.registering _

IsConsistent-decide_found :
    (decision : ApprovalDecision) (env : Environment) (f : String) (o : Option FaultEvent)
    {s : GatewayStore} (mcp : McpState)
    → IsConsistent s
    → IsConsistent (decide_found decision env f o s mcp).store
unfolding decide_found
IsConsistent-decide_found decision env f none mcp h = h
IsConsistent-decide_found decision env f (some evt) mcp h =
    IsConsistent-decide env f evt h decision mcp

pub IsConsistent-post_decision :
    (decision : ApprovalDecision) (env : Environment) (f : String) {s : GatewayStore}
    (mcp : McpState)
    → IsConsistent s
    → IsConsistent (post_decision f decision env s mcp).store
unfolding post_decision
IsConsistent-post_decision decision env f {s} mcp h =
    IsConsistent-decide_found decision env f (Store.get_fault f s) mcp h
