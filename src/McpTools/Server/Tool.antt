-- ===== src/McpTools/Server/Tool.antt =====
-- services/mcp_tools/server.py: the reply of the tool to an authorised call.
use nemoclaw_lab_cl.Base.{
  String, Bool, true, Option, some, List, ◌≡◌, refl, arith, Result-cases, inl, inr,
}
use nemoclaw_lab_cl.McpTools.Remediation.{Resolved, Call, remediation_execute}
use nemoclaw_lab_cl.McpTools.Remediation.Security.{Authorised, resolves_iff}
use nemoclaw_lab_cl.McpTools.Server.{McpState, resolved, run_parsed, remediation_tool}

pub tool-resolves :
    (json_loads : String → Option (List String)) (clear : String → Bool) (c : Call)
    (t json asset_id : String) (s : McpState)
    → c.approval_token ≡ some t
    → json_loads json ≡ some c.step_ids
    → Authorised c s.token_store s.fault_registry asset_id
    → clear asset_id ≡ true
    → (r : Resolved) × ((remediation_tool json_loads clear c.fault_event_id t json s).0
        ≡ resolved r)
unfolding remediation_tool
tool-resolves json_loads clear c t json asset_id s presented parsed a cleared =
    let accepted = (resolves_iff c clear s.token_store s.fault_registry).1 (asset_id, a, cleared) in
    elim (Result-cases (remediation_execute c clear s.token_store s.fault_registry).0) [
      | inl (r, e) ↦ (r, rw (parsed, run_parsed, ← presented, e) refl)
      | inr (x, e) ↦ absurd (ground arith)
    ]
