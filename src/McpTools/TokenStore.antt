-- ===== src/McpTools/TokenStore.antt =====
-- services/mcp_tools/token_store.py: `ApprovalTokenStore`. `secrets.token_urlsafe` and the clock
-- are arguments of `mint`.
pub mod Laws
use nemoclaw_lab_cl.Base.{String, Bool, true, Option, none, some, [], ◌==◌, if◌then◌else◌}
use nemoclaw_lab_cl.Base.Dict.{Dict, get, put}
use nemoclaw_lab_cl.Models.{Timestamp, ApprovalDecision, approved, ApprovalToken}

pub record ApprovalTokenStore : Type 0 where
  pub tokens : Dict ApprovalToken

-- the argument of `mint`: a member of the enum, or its value as a plain text
pub data DecisionArg : Type 0 where
  member : ApprovalDecision → DecisionArg
  text : String → DecisionArg

-- `ApprovalDecision(decision)`; `none` stands for the `ValueError`
unfoldable pub decision_of : DecisionArg → Option ApprovalDecision
decision_of (member d) = some d
decision_of (text s) =
    if s == "approved"
    then some approved
    else if s == "denied"
    then some ApprovalDecision.denied
    else none

unfoldable pub store : ApprovalToken → ApprovalTokenStore → ApprovalTokenStore
store token ts = record { tokens = put token.token token ts.tokens }

minted : String → String → ApprovalDecision → String → Timestamp → ApprovalToken
minted fresh fault_event_id decision decided_by now = record {
  token = fresh;
  fault_event_id = fault_event_id;
  decision = decision;
  decided_by = decided_by;
  decided_at = now;
  consumed = Bool.false;
}

-- `none` when the decision is no member of the enum; then nothing is stored.
unfoldable pub mint :
    String
    → String
    → DecisionArg
    → String
    → Timestamp
    → ApprovalTokenStore
    → Option (ApprovalToken × ApprovalTokenStore)
unfolding minted decision_of
mint fresh fault_event_id decision decided_by now ts = elim (decision_of decision) [
  | none ↦ none
  | some d ↦
      let tok = minted fresh fault_event_id d decided_by now in
      some (tok, record { tokens = put tok.token tok ts.tokens })
]

unfoldable pub get_token : String → ApprovalTokenStore → Option ApprovalToken
get_token token_str ts = get token_str ts.tokens

consume_found : String → Option ApprovalToken → ApprovalTokenStore → ApprovalTokenStore
consume_found token_str none ts = ts
consume_found token_str (some tok) ts = record {
  tokens = put token_str (record tok { consumed = true }) ts.tokens;
}

-- A no-op on an unknown token.
unfoldable pub consume : String → ApprovalTokenStore → ApprovalTokenStore
unfolding consume_found
consume token_str ts = consume_found token_str (get token_str ts.tokens) ts

unfoldable pub clear : ApprovalTokenStore → ApprovalTokenStore
clear ts = record { tokens = [] }
