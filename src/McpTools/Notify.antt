-- ===== src/McpTools/Notify.antt =====
-- services/mcp_tools/tools/notify.py: the agent's narration, over the Gateway's activity route.
pub mod Effect
use nemoclaw_lab_cl.Base.{ℕ, String, List, [], ◌∷◌, elem, if◌then◌else◌}
use nemoclaw_lab_cl.Base.Text.{slice_to}
use nemoclaw_lab_cl.Models.{Timestamp}
use nemoclaw_lab_cl.Gateway.Store.{GatewayStore}
use nemoclaw_lab_cl.Gateway.Faults.{ActivityRequest, post_activity}
use nemoclaw_lab_cl.Base.Http.{Delivery}

abbrev pub allowed_steps : List String
allowed_steps =
    "detect" ∷ "diagnose" ∷ "search_kb" ∷ "present" ∷ "remediate" ∷ "resolved" ∷ "denied" ∷ []

-- the body that is posted
unfoldable pub request_of : String → String → String → ActivityRequest
request_of fault_event_id step message = record {
  fault_event_id = fault_event_id;
  step = if elem step allowed_steps then step else "diagnose";
  message = slice_to 500 message;
}

-- the dict that is returned; `raised` is an `httpx.HTTPError`
pub data NotifyReply : Type 0 where
  posted : String → NotifyReply
  gateway_error : ℕ → NotifyReply
  raised : NotifyReply

-- `status` is the status of an answer that rejects the call
unfoldable pub notify_post_activity :
    Delivery
    → ℕ
    → String
    → String
    → String
    → String
    → Timestamp
    → GatewayStore
    → NotifyReply × GatewayStore
unfolding request_of
notify_post_activity Delivery.answered status fault_event_id step message id now s =
    (posted fault_event_id, (post_activity (request_of fault_event_id step message) id now s).1)
notify_post_activity Delivery.rejected status fault_event_id step message id now s =
    (gateway_error status, s)
notify_post_activity Delivery.lost status fault_event_id step message id now s = (raised, s)
notify_post_activity Delivery.unanswered status fault_event_id step message id now s =
    (raised, (post_activity (request_of fault_event_id step message) id now s).1)
