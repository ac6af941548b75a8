-- ===== src/McpTools/Propose.antt =====
-- services/mcp_tools/tools/remediation.py, `remediation_propose`: the agent's proposal, over the
-- Gateway's routes that it calls. How httpx and Starlette take a path is a parameter, since the id in
-- it comes from the agent and can hold `/`, `?` or `#`.
pub mod Delivered
pub mod Effect
use nemoclaw_lab_cl.Base.{
  ℕ, String, Bool, Option, none, some, List, [], ◌∷◌, ◌==◌, ◌=ℕ◌, ◌&&◌, leb, if◌then◌else◌, Result,
  ok, err,
}
use nemoclaw_lab_cl.Base.Http.{HttpError, Delivery}
use nemoclaw_lab_cl.Base.Text.{text, join, slice_to}
use nemoclaw_lab_cl.Models.{Timestamp, FaultEvent, awaiting_approval}
use nemoclaw_lab_cl.Gateway.Store.{GatewayStore}
use nemoclaw_lab_cl.Gateway.Faults.{
  Response, UpdateDiagnosisRequest, update_fault_diagnosis, update_fault_status, ActivityRequest,
  post_activity,
}

-- `raised` is an `httpx.HTTPError`
pub data ProposeReply : Type 0 where
  proposal_recorded : (fault_event_id : String) (step_ids : List String) → ProposeReply
  fault_not_found : ProposeReply
  raised : ProposeReply

-- where a PATCH arrives: at a route with its id, or at none, with the status of the answer
pub data Target : Type 0 where
  diagnosis_of : String → Target
  status_of : String → Target
  elsewhere : ℕ → Target

-- what the three calls meet, and the status of an answer that rejects one
pub record Calls : Type 0 where
  pub diagnosing : Delivery
  pub recording : Delivery
  pub narrating : Delivery
  pub rejection : ℕ

abbrev pub analysis_only : String → UpdateDiagnosisRequest
analysis_only summary = record {
  error_signature = none;
  analysis = some (slice_to 1000 summary);
  kb_article_id = none;
  kb_title = none;
  kb_score = none;
}

abbrev pub nothing_given : UpdateDiagnosisRequest
nothing_given = record {
  error_signature = none;
  analysis = none;
  kb_article_id = none;
  kb_title = none;
  kb_score = none;
}

abbrev pub code_of : {A : Type 0} → Result HttpError A × GatewayStore → ℕ × GatewayStore
code_of (ok a, s) = (200, s)
code_of (err e, s) = (e.status_code, s)

-- the body `{"analysis": …}`, in which the status route misses its `status`
unfoldable pub patch_analysis : Target → String → GatewayStore → ℕ × GatewayStore
patch_analysis (diagnosis_of id) summary s =
    code_of (update_fault_diagnosis id (analysis_only summary) s)
patch_analysis (status_of id) summary s = (422, s)
patch_analysis (elsewhere status) summary s = (status, s)

-- the body `{"status": "awaiting_approval"}`, of which the diagnosis route takes nothing
unfoldable pub patch_awaiting : Target → GatewayStore → ℕ × GatewayStore
patch_awaiting (status_of id) s = code_of (update_fault_status id awaiting_approval s)
patch_awaiting (diagnosis_of id) s = code_of (update_fault_diagnosis id nothing_given s)
patch_awaiting (elsewhere status) s = (status, s)

-- the status of the answer, `none` for an `httpx.HTTPError`
unfoldable pub delivered :
    Delivery → ℕ → (GatewayStore → ℕ × GatewayStore) → GatewayStore → Option ℕ × GatewayStore
delivered Delivery.answered rejection call s = let (status, s') = call s in (some status, s')
delivered Delivery.rejected rejection call s = (some rejection, s)
delivered Delivery.lost rejection call s = (none, s)
delivered Delivery.unanswered rejection call s = (none, (call s).1)

steps_label : List String → String
steps_label [] = "(scenario defaults)"
steps_label (s ∷ ss) = join ", " (s ∷ ss)

module _ (routed : String → Target) (calls : Calls) (fault_event_id : String)
    (step_ids : List String) (summary id : String) (now : Timestamp) where
  -- the first call, whose status is not looked at
  unfoldable pub diagnosed : GatewayStore → Option ℕ × GatewayStore
  unfolding delivered patch_analysis
  diagnosed s =
      if summary == ""
      then (some 200, s)
      else delivered calls.diagnosing calls.rejection
          (patch_analysis (routed (text ("/api/faults/" ∷ fault_event_id ∷ "/diagnosis" ∷ [])))
            summary)
          s

  unfoldable pub awaiting : GatewayStore → Option ℕ × GatewayStore
  unfolding delivered patch_awaiting
  awaiting s =
      delivered calls.recording calls.rejection
        (patch_awaiting (routed (text ("/api/faults/" ∷ fault_event_id ∷ "/status" ∷ [])))) s

  narrated : Option ℕ × GatewayStore → ProposeReply × GatewayStore
  narrated (none, s) = (raised, s)
  narrated (some status, s) = (proposal_recorded fault_event_id step_ids, s)

  unfoldable pub narrate : GatewayStore → ℕ × GatewayStore
  unfolding steps_label
  narrate s = (
    201,
    (post_activity
        (record {
          fault_event_id = fault_event_id;
          step = "present";
          message = text (
              "⏸ Remediation plan proposed — awaiting operator approval: "
              ∷ steps_label step_ids
              ∷ []);
        })
        id now s).1,
  )

  -- the 404, then `raise_for_status`
  recorded : Option ℕ × GatewayStore → ProposeReply × GatewayStore
  unfolding narrated
  recorded (none, s) = (raised, s)
  recorded (some status, s) =
      if status =ℕ 404
      then (fault_not_found, s)
      else if leb 200 status && leb status 299
      then narrated (delivered calls.narrating calls.rejection narrate s)
      else (raised, s)

  after_diagnosis : Option ℕ × GatewayStore → ProposeReply × GatewayStore
  unfolding recorded
  after_diagnosis (none, s) = (raised, s)
  after_diagnosis (some status, s) = recorded (awaiting s)

  unfoldable pub remediation_propose : GatewayStore → ProposeReply × GatewayStore
  unfolding after_diagnosis recorded narrated
  remediation_propose s = after_diagnosis (diagnosed s)
