-- ===== src/McpTools/Server/Interleaving.antt =====
-- services/mcp_tools/tools/remediation.py: `remediation_execute` awaits `clear_fn` between its
-- checks and `consume`, so other requests run in between.
use nemoclaw_lab_cl.Base.{Bool, true, List, [], ◌∷◌, ◌++◌, ◌≡◌, arith, Result, ok, err}
use nemoclaw_lab_cl.McpTools.TokenStore.{ApprovalTokenStore}
use nemoclaw_lab_cl.McpTools.Remediation.{
  RemediationError, Resolved, Call, Pending, validate, finish,
}
use nemoclaw_lab_cl.McpTools.Server.{McpState}

-- the service with the coroutines that wait for the Simulator, oldest first, and what has resolved
pub record Running : Type 0 where
  pub mcp : McpState
  pub waiting : List Pending
  pub resolved : List Resolved

-- One turn of the event loop: a request arrives and runs up to its `await`, or the answer for the
-- oldest waiting coroutine comes in.
pub data Turn : Type 0 where
  arrive : Call → Turn
  answer : (cleared : Bool) → Turn

started_call : Running → Result RemediationError Pending → Running
started_call s (ok p) = record s { waiting = s.waiting ++ p ∷ [] }
started_call s (err e) = s

finished : Running → List Pending → Result RemediationError Resolved × ApprovalTokenStore → Running
finished s rest (ok r, ts) = record {
  mcp = record s.mcp { token_store = ts };
  waiting = rest;
  resolved = s.resolved ++ r ∷ [];
}
finished s rest (err e, ts) = record s { waiting = rest; mcp = record s.mcp { token_store = ts } }

answer_oldest : Bool → List Pending → Running → Running
answer_oldest cleared [] s = s
answer_oldest cleared (p ∷ rest) s = finished s rest (finish p cleared s.mcp.token_store)

unfoldable pub turn : Turn → Running → Running
unfolding started_call finished answer_oldest
turn (arrive c) s = started_call s (validate c s.mcp.token_store s.mcp.fault_registry)
turn (answer cleared) s = answer_oldest cleared s.waiting s

unfoldable pub run : List Turn → Running → Running
run [] s = s
run (t ∷ ts) s = run ts (turn t s)

-- Two calls whose checks pass in the same state, so possibly with one token, both resolve when the
-- second arrives while the first waits for the Simulator and both clears are confirmed.
pub overlap_resolves_both :
    (mcp : McpState) (c c' : Call) (p p' : Pending)
    → validate c mcp.token_store mcp.fault_registry ≡ ok p
    → validate c' mcp.token_store mcp.fault_registry ≡ ok p'
    → (run
        (arrive c ∷ arrive c' ∷ answer true ∷ answer true ∷ [])
        (record { mcp = mcp; waiting = []; resolved = [] })).resolved
      ≡ record { fault_event_id = p.call.fault_event_id; executed = p.call.step_ids }
        ∷ record { fault_event_id = p'.call.fault_event_id; executed = p'.call.step_ids }
        ∷ []
unfolding run turn finish
overlap_resolves_both mcp c c' p p' h h' = ground (arith, h, h')
