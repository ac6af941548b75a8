-- ===== src/McpTools/TokenStore/Laws.antt =====
-- services/mcp_tools/token_store.py: lookups after `consume` and `mint`.
use nemoclaw_lab_cl.Base.{
  Bool, none, ℕ, ◌+◌, ◌≤◌, arith, String, true, Option, some, ◌≡◌, ◌==◌, if◌then◌else◌,
}
use nemoclaw_lab_cl.Base.Dict.{get-put, total, total-put}
use nemoclaw_lab_cl.Models.{Timestamp, ApprovalDecision, ApprovalToken}
use nemoclaw_lab_cl.McpTools.TokenStore.{
  ApprovalTokenStore, member, mint, get_token, consume_found, consume,
}

abbrev pub used : ApprovalToken → ApprovalToken
used tok = record tok { consumed = true }

pub get_token-consume :
    (t j : String) (tok : ApprovalToken) (ts : ApprovalTokenStore)
    → get_token t ts ≡ some tok
    → get_token j (consume t ts) ≡ (if t == j then some (used tok) else get_token j ts)
unfolding get_token consume
get_token-consume t j tok ts h = rw (h, consume_found) (get-put t j (used tok) ts.tokens)

-- consuming a stored token trades its weight for the weight of the used one
pub total-consume :
    (w : ApprovalToken → ℕ) (t : String) (tok : ApprovalToken) (ts : ApprovalTokenStore)
    → get_token t ts ≡ some tok
    → total w (consume t ts).tokens + w tok ≡ total w ts.tokens + w (used tok)
unfolding get_token consume
total-consume w t tok ts h =
    rw (h, consume_found) (ground (arith, total-put w t (used tok) ts.tokens, h))

abbrev pub fresh_token : String → String → ApprovalDecision → String → Timestamp → ApprovalToken
fresh_token fresh f d by now = record {
  token = fresh;
  fault_event_id = f;
  decision = d;
  decided_by = by;
  decided_at = now;
  consumed = Bool.false;
}

abbrev pub store_of :
    ApprovalTokenStore → Option (ApprovalToken × ApprovalTokenStore) → ApprovalTokenStore
store_of ts none = ts
store_of ts (some (tok, ts')) = ts'

-- minting adds at most the weight of the new token
pub total-mint-le :
    (w : ApprovalToken → ℕ) (fresh f : String) (d : ApprovalDecision) (by : String)
    (now : Timestamp) (ts : ApprovalTokenStore)
    → total w (store_of ts (mint fresh f (member d) by now ts)).tokens
      ≤ total w ts.tokens + w (fresh_token fresh f d by now)
unfolding mint
total-mint-le w fresh f d by now ts =
    omega (arith, total-put w fresh (fresh_token fresh f d by now) ts.tokens)
