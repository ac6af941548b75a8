-- ===== src/McpTools/Server.antt =====
-- services/mcp_tools/main.py and server.py: the state of the service, its internal endpoints, and
-- the tool `remediation.execute`.
pub mod Tool
pub mod Approvals
pub mod Interleaving
use nemoclaw_lab_cl.Base.{String, Bool, Option, none, some, List, [], Result, ok, err}
use nemoclaw_lab_cl.Models.{Timestamp, ApprovalDecision, ApprovalToken}
use nemoclaw_lab_cl.McpTools.TokenStore
use nemoclaw_lab_cl.McpTools.TokenStore.{ApprovalTokenStore, member}
use nemoclaw_lab_cl.McpTools.FaultRegistry
use nemoclaw_lab_cl.McpTools.FaultRegistry.{FaultEventRegistry}
use nemoclaw_lab_cl.McpTools.Remediation.{RemediationError, Resolved, Call, remediation_execute}

pub record McpState : Type 0 where
  pub token_store : ApprovalTokenStore
  pub fault_registry : FaultEventRegistry

abbrev pub started : McpState
started = record { token_store = record { tokens = [] }; fault_registry = record { records = [] } }

pub record RegisterFaultEventRequest : Type 0 where
  pub fault_event_id : String
  pub asset_id : String
  pub scenario_id : String
  pub allowed_step_ids : List String

-- `decided_by` holds its default "human" when the body leaves it out.
pub record MintTokenRequest : Type 0 where
  pub fault_event_id : String
  pub decision : ApprovalDecision
  pub decided_by : String

unfoldable pub register_fault_event : RegisterFaultEventRequest → McpState → McpState
register_fault_event req s = record s {
  fault_registry =
      FaultRegistry.register req.fault_event_id req.asset_id req.scenario_id req.allowed_step_ids
        s.fault_registry;
}

after_mint :
    McpState → Option (ApprovalToken × ApprovalTokenStore) → Option ApprovalToken × McpState
after_mint s none = (none, s)
after_mint s (some (tok, ts)) = (some tok, record s { token_store = ts })

-- The first two arguments are what `secrets.token_urlsafe` and the clock return.
unfoldable pub mint_token :
    String → Timestamp → MintTokenRequest → McpState → Option ApprovalToken × McpState
unfolding after_mint
mint_token fresh now req s = after_mint s (
    TokenStore.mint fresh req.fault_event_id (member req.decision) req.decided_by now s.token_store)

unfoldable pub reset_state : McpState → McpState
reset_state s = record {
  token_store = TokenStore.clear s.token_store;
  fault_registry = FaultRegistry.clear s.fault_registry;
}

-- A tool's reply: the resolved dict, the `to_dict` of the error, or the reply to bad JSON.
pub data ToolReply : Type 0 where
  resolved : Resolved → ToolReply
  refused : RemediationError → ToolReply
  invalid_step_ids_json : ToolReply

reply_of : Result RemediationError Resolved → ToolReply
reply_of (ok r) = resolved r
reply_of (err e) = refused e

run_parsed :
    Option (List String) → String → String → (String → Bool) → McpState → ToolReply × McpState
run_parsed none fault_event_id approval_token clear s = (invalid_step_ids_json, s)
run_parsed (some step_ids) fault_event_id approval_token clear s =
    let (result, ts) =
      remediation_execute
        (record {
          fault_event_id = fault_event_id;
          approval_token = some approval_token;
          step_ids = step_ids;
        })
        clear s.token_store s.fault_registry in
    (reply_of result, record s { token_store = ts })

-- One call, from its start to its end with no other between; Interleaving splits it at its `await`.
-- `json_loads` reads a list of step ids, and `clear` says for each asset whether the Simulator's
-- `POST /control/clear` answered without an `httpx.HTTPError`.
unfoldable pub remediation_tool :
    (String → Option (List String))
    → (String → Bool)
    → String
    → String
    → String
    → McpState
    → ToolReply × McpState
unfolding run_parsed reply_of
remediation_tool json_loads clear fault_event_id approval_token step_ids s =
    run_parsed (json_loads step_ids) fault_event_id approval_token clear s
