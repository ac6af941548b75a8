-- ===== src/Gateway/Decision.antt =====
-- services/gateway/router.py: `post_decision`, with the calls that it makes to the Orchestrator and
-- to MCP Tools, and executor.py: `make_mcp_remediation_execute`, the call that an approval leads to.
pub mod Safety
pub mod Ready
pub mod Approved
pub mod Keeps
use nemoclaw_lab_cl.Base.{
  ℕ, String, Bool, true, false, Option, none, some, List, [], ◌∷◌, map, if◌then◌else◌, Result, ok,
  err,
}
use nemoclaw_lab_cl.Base.Dict.{Dict, put}
use nemoclaw_lab_cl.Base.Text.{text}
use nemoclaw_lab_cl.Models.{Timestamp, FaultEvent, FaultEventStatus, ApprovalDecision, approved}
use nemoclaw_lab_cl.McpTools.Remediation.{
  RemediationError, not_approved, token_invalid, token_consumed, step_not_allowed,
  simulator_clear_failed,
}
use nemoclaw_lab_cl.McpTools.Server.{
  McpState, register_fault_event, mint_token, remediation_tool, ToolReply, resolved, refused,
  invalid_step_ids_json,
}
use nemoclaw_lab_cl.Gateway.Sse
use nemoclaw_lab_cl.Gateway.Store
use nemoclaw_lab_cl.Gateway.Store.{GatewayStore}
use nemoclaw_lab_cl.Gateway.Faults.{fault_not_found}
use nemoclaw_lab_cl.Base.Http.{HttpError, Delivery, handled}
use nemoclaw_lab_cl.Gateway.Executor.{Started, Reply, returned, raised}

-- one entry of the `remediation_steps` that the Orchestrator sends
pub record StepJson : Type 0 where
  pub id : String
  pub label : Option String

pub record Environment : Type 0 where
  -- the scenario's steps; `none` for an `httpx.HTTPError`
  pub scenario : Option (List StepJson)
  pub registering : Delivery
  pub minting : Delivery
  pub fresh_token : String
  pub now : Timestamp
  pub exc : String

pub record Decided : Type 0 where
  pub answer : Result HttpError ApprovalDecision
  pub store : GatewayStore
  pub mcp : McpState
  -- the arguments of `remediation_executor.start`, if it is called
  pub started : Option Started

unfoldable pub step_ids_of : Option (List StepJson) → List String
step_ids_of none = []
step_ids_of (some steps) = map (λ s. s.id) steps

label_from : StepJson → String
label_from s = elim s.label [ none ↦ s.id | some label ↦ label ]

labels_into : Dict String → List StepJson → Dict String
labels_into d [] = d
labels_into d (s ∷ steps) = labels_into (put s.id (label_from s) d) steps

unfoldable pub step_labels_of : Option (List StepJson) → Dict String
unfolding labels_into label_from
step_labels_of none = []
step_labels_of (some steps) = labels_into [] steps

mcp_tools_error : Environment → HttpError
mcp_tools_error env = record {
  status_code = 502;
  detail = text ("mcp_tools_error: " ∷ env.exc ∷ []);
}

-- `updated` is there whenever the fault event was; `none` would raise an `AttributeError`
deny : String → Option FaultEvent × GatewayStore → McpState → Decided
deny fault_id (none, s) mcp = record {
  answer = err (record { status_code = 500; detail = "Internal Server Error" });
  store = s;
  mcp = mcp;
  started = none;
}
deny fault_id (some updated, s) mcp = record {
  answer = ok ApprovalDecision.denied;
  store =
      Store.publish (Sse.decision fault_id ApprovalDecision.denied)
        (Store.publish (Sse.fault updated) s);
  mcp = mcp;
  started = none;
}

registered : Environment → String → FaultEvent → McpState → McpState
registered env fault_id evt mcp =
    if handled env.registering
    then register_fault_event
        (record {
          fault_event_id = fault_id;
          asset_id = evt.asset_id;
          scenario_id = evt.scenario_id;
          allowed_step_ids = step_ids_of env.scenario;
        })
        mcp
    else mcp

with_token : Environment → String → McpState → McpState
with_token env fault_id mcp =
    if handled env.minting
    then (mint_token env.fresh_token env.now
        (record { fault_event_id = fault_id; decision = approved; decided_by = "human" }) mcp).1
    else mcp

failed : Environment → GatewayStore → McpState → Decided
failed env s mcp = record {
  answer = err (mcp_tools_error env);
  store = s;
  mcp = mcp;
  started = none;
}

pub go_ahead : Environment → String → FaultEvent → GatewayStore → McpState → Decided
go_ahead env fault_id evt s mcp = record {
  answer = ok approved;
  store =
      Store.publish (Sse.decision fault_id approved)
        (Store.set_pending_token fault_id env.fresh_token s);
  mcp = mcp;
  started = some (record {
    fault_id = fault_id;
    asset_id = evt.asset_id;
    scenario_id = evt.scenario_id;
    step_ids = step_ids_of env.scenario;
    step_labels = step_labels_of env.scenario;
    token = env.fresh_token;
  });
}

after_mint : Delivery → Environment → String → FaultEvent → GatewayStore → McpState → Decided
after_mint Delivery.answered env fault_id evt s mcp = go_ahead env fault_id evt s mcp
after_mint _ env fault_id evt s mcp = failed env s mcp

-- the status of the first answer is not looked at, so an error status goes on to the minting
after_register : Delivery → Environment → String → FaultEvent → GatewayStore → McpState → Decided
after_register Delivery.lost env fault_id evt s mcp = failed env s mcp
after_register Delivery.unanswered env fault_id evt s mcp = failed env s mcp
after_register _ env fault_id evt s mcp =
    after_mint env.minting env fault_id evt s (with_token env fault_id mcp)

decide : ApprovalDecision → Environment → String → FaultEvent → GatewayStore → McpState → Decided
decide ApprovalDecision.denied env fault_id evt s mcp =
    deny fault_id (Store.update_fault_status fault_id FaultEventStatus.denied s) mcp
decide ApprovalDecision.approved env fault_id evt s mcp =
    after_register env.registering env fault_id evt s (registered env fault_id evt mcp)

decide_found :
    ApprovalDecision → Environment → String → Option FaultEvent → GatewayStore → McpState → Decided
decide_found decision env fault_id none s mcp = record {
  answer = err fault_not_found;
  store = s;
  mcp = mcp;
  started = none;
}
decide_found decision env fault_id (some evt) s mcp = decide decision env fault_id evt s mcp

unfoldable pub post_decision :
    String → ApprovalDecision → Environment → GatewayStore → McpState → Decided
unfolding step_ids_of label_from labels_into step_labels_of mcp_tools_error deny registered
    with_token failed go_ahead after_mint after_register decide decide_found handled
post_decision fault_id decision env s mcp =
    decide_found decision env fault_id (Store.get_fault fault_id s) s mcp

unfoldable pub error_name : RemediationError → String
error_name not_approved = "not_approved"
error_name token_invalid = "token_invalid"
error_name token_consumed = "token_consumed"
error_name (step_not_allowed _) = "step_not_allowed"
error_name (simulator_clear_failed _) = "simulator_clear_failed"

reply_of_tool : ToolReply → Reply
reply_of_tool (resolved r) = returned (some "resolved") none
reply_of_tool (refused e) = returned (some "error") (some (error_name e))
reply_of_tool invalid_step_ids_json = returned (some "error") (some "invalid_step_ids_json")

-- A session that cannot be opened or breaks raises; else the tool's reply is read back.
unfoldable pub mcp_execute :
    (List String → String)
    → (String → Option (List String))
    → Bool
    → (String → Bool)
    → McpState
    → String
    → String
    → List String
    → Reply
unfolding reply_of_tool error_name
mcp_execute json_dumps json_loads reachable clear mcp fault_event_id approval_token step_ids =
    if reachable
    then reply_of_tool
        (remediation_tool json_loads clear fault_event_id approval_token (json_dumps step_ids)
          mcp).0
    else raised
