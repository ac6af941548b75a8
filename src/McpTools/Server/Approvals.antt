-- ===== src/McpTools/Server/Approvals.antt =====
-- services/mcp_tools: over any sequence of requests to the service, handled one at a time, a fault
-- event is remediated at most as often as an approval was minted for it.
use nemoclaw_lab_cl.Base.{
  ℕ, ◌+◌, ◌≤◌, String, Bool, Option, none, some, List, [], ◌∷◌, ◌≡◌, arith, ◌==◌, ◌&&◌, not,
  if◌then◌else◌, ok, Option-cases, Result-cases, inl, inr,
}
use nemoclaw_lab_cl.Base.Dict.{total}
use nemoclaw_lab_cl.Models.{Timestamp, ApprovalToken, is_approved}
use nemoclaw_lab_cl.McpTools.TokenStore
use nemoclaw_lab_cl.McpTools.TokenStore.{ApprovalTokenStore}
use nemoclaw_lab_cl.McpTools.TokenStore.Laws.{total-consume, total-mint-le}
use nemoclaw_lab_cl.McpTools.FaultRegistry.{FaultEventRegistry}
use nemoclaw_lab_cl.McpTools.Remediation.{Resolved, Call, remediation_execute}
use nemoclaw_lab_cl.McpTools.Remediation.Replay.{resolved-store}
use nemoclaw_lab_cl.McpTools.Remediation.Security.{refused_unchanged}
use nemoclaw_lab_cl.McpTools.Server.{
  McpState, RegisterFaultEventRequest, MintTokenRequest, register_fault_event, mint_token,
  reset_state, ToolReply, resolved, run_parsed, remediation_tool, started,
}

-- A request, with what the environment answers: the random token and the time for `mint`, the
-- Simulator's answers for `execute`.
pub data Request : Type 0 where
  register : RegisterFaultEventRequest → Request
  mint : String → Timestamp → MintTokenRequest → Request
  execute : (String → Bool) → String → String → String → Request
  reset : Request

-- the weight of a token that still lets `f` be remediated
abbrev live : String → ApprovalToken → ℕ
live f tok =
    if not tok.consumed && (is_approved tok.decision && tok.fault_event_id == f) then 1 else 0

abbrev pub resolves : String → ToolReply → ℕ
resolves f (resolved r) = if r.fault_event_id == f then 1 else 0
resolves f _ = 0

abbrev pub grants : String → Request → ℕ
grants f (mint _ _ req) = if is_approved req.decision && req.fault_event_id == f then 1 else 0
grants f _ = 0

module _ (json_loads : String → Option (List String)) where
  -- the reply of an `execute`, and the state after any request
  unfoldable pub handle : Request → McpState → Option ToolReply × McpState
  handle (register req) s = (none, register_fault_event req s)
  handle (mint fresh now req) s = (none, (mint_token fresh now req s).1)
  handle (execute clear f t steps) s =
      let (reply, s') = remediation_tool json_loads clear f t steps s in (some reply, s')
  handle reset s = (none, reset_state s)

  abbrev resolved_by : String → Option ToolReply → ℕ
  resolved_by f none = 0
  resolved_by f (some reply) = resolves f reply

  -- how many of the requests have resolved `f`
  unfoldable pub executions : String → List Request → McpState → ℕ
  executions f [] s = 0
  executions f (r ∷ rs) s = resolved_by f (handle r s).0 + executions f rs (handle r s).1

-- how many approvals for `f` the requests have minted
unfoldable pub approvals : String → List Request → ℕ
approvals f [] = 0
approvals f (r ∷ rs) = grants f r + approvals f rs

open_tokens : String → McpState → ℕ
open_tokens f s = total (live f) s.token_store.tokens

open_tokens-execute :
    (f : String) (c : Call) (clear : String → Bool) (ts : ApprovalTokenStore)
    (reg : FaultEventRegistry) (r : Resolved)
    → (remediation_execute c clear ts reg).0 ≡ ok r
    → (if r.fault_event_id == f then 1 else 0)
        + total (live f) (remediation_execute c clear ts reg).1.tokens
      ≡ total (live f) ts.tokens
unfolding is_approved
open_tokens-execute f c clear ts reg r h =
    let (shape, asset_id, a, written) = resolved-store c clear ts reg r h in
    rw written (
      ground (
        arith,
        shape,
        a.unused,
        a.approves,
        a.bound,
        total-consume (live f) a.token_str a.token ts a.stored,
      ))

open_tokens-tool :
    (json_loads : String → Option (List String)) (clear : String → Bool) (f fault t steps : String)
    (s : McpState)
    → resolves f (remediation_tool json_loads clear fault t steps s).0
        + open_tokens f (remediation_tool json_loads clear fault t steps s).1
      ≤ open_tokens f s
unfolding remediation_tool open_tokens
open_tokens-tool json_loads clear f fault t steps s = elim (Option-cases (json_loads steps)) [
  | inl e ↦ rw (e, run_parsed) (omega arith)
  | inr (ids, e) ↦
      let c : Call = record { fault_event_id = fault; approval_token = some t; step_ids = ids } in
      rw (e, run_parsed)
        (elim (Result-cases (remediation_execute c clear s.token_store s.fault_registry).0) [
          | inl (r, h) ↦
              rw h (omega (arith, open_tokens-execute f c clear s.token_store s.fault_registry r h))
          | inr (x, h) ↦
              rw (h, refused_unchanged c clear s.token_store s.fault_registry x h) (omega arith)
        ])
]

open_tokens-mint :
    (f fresh : String) (now : Timestamp) (req : MintTokenRequest) (s : McpState)
    → open_tokens f (mint_token fresh now req s).1 ≤ open_tokens f s + grants f (mint fresh now req)
unfolding open_tokens mint_token TokenStore.mint is_approved
open_tokens-mint f fresh now req s = ground (
  arith,
  total-mint-le (live f) fresh req.fault_event_id req.decision req.decided_by now s.token_store,
)

-- one request: what it resolves for `f` is paid by a live token or by what it mints
open_tokens-handle :
    (json_loads : String → Option (List String)) (f : String) (r : Request) (s : McpState)
    → resolved_by json_loads f (handle json_loads r s).0 + open_tokens f (handle json_loads r s).1
      ≤ open_tokens f s + grants f r
unfolding handle
open_tokens-handle json_loads f (register req) s =
    unfold open_tokens register_fault_event in omega arith
open_tokens-handle json_loads f (mint fresh now req) s =
    omega (arith, open_tokens-mint f fresh now req s)
open_tokens-handle json_loads f (execute clear fault t steps) s =
    omega (arith, open_tokens-tool json_loads clear f fault t steps s)
open_tokens-handle json_loads f reset s =
    unfold open_tokens reset_state TokenStore.clear total in omega arith

executions-le :
    (json_loads : String → Option (List String)) (f : String) (rs : List Request) (s : McpState)
    → executions json_loads f rs s ≤ open_tokens f s + approvals f rs
unfolding executions approvals
executions-le json_loads f [] s = omega arith
executions-le json_loads f (r ∷ rs) s = omega (
  arith,
  open_tokens-handle json_loads f r s,
  executions-le json_loads f rs (handle json_loads r s).1,
)

-- From the start of the service, whatever the requests, each of which is handled to its end before
-- the next one, a fault event is resolved at most as often as the requests have minted an approved
-- token for it.
pub executions-le-approvals :
    (json_loads : String → Option (List String)) (f : String) (rs : List Request)
    → executions json_loads f rs started ≤ approvals f rs
executions-le-approvals json_loads f rs =
    unfold open_tokens total in omega (arith, executions-le json_loads f rs started)
