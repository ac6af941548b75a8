-- ===== src/McpTools/Notify/Effect.antt =====
-- services/mcp_tools/tools/notify.py: what the agent's narration can do to the Gateway.
use nemoclaw_lab_cl.Base.{
  ℕ, ◌≤◌, String, true, List, [], ◌∷◌, ◌++◌, elem, if◌then◌else◌, ◌≡◌, ◌⊎◌, inl, inr, refl,
  Bool-cases,
}
use nemoclaw_lab_cl.Base.Text.{chars}
use nemoclaw_lab_cl.Base.Text.Laws.{chars-slice_to}
use nemoclaw_lab_cl.Models.{Timestamp, ActivityEvent}
use nemoclaw_lab_cl.Gateway.Store
use nemoclaw_lab_cl.Gateway.Store.{GatewayStore}
use nemoclaw_lab_cl.Gateway.Faults.{post_activity}
use nemoclaw_lab_cl.Base.Http.{Delivery}
use nemoclaw_lab_cl.McpTools.Notify.{allowed_steps, request_of, notify_post_activity}

-- the feed is longer by at most one line, which is about this fault event, of a known step and of a
-- bounded length
abbrev pub Extends : String → List ActivityEvent → List ActivityEvent → Type 0
Extends fault_event_id before after =
    (after ≡ before)
    ⊎ ((evt : ActivityEvent) × (after ≡ before ++ evt ∷ [])
        × (evt.fault_event_id ≡ fault_event_id)
        × (elem evt.step allowed_steps ≡ true)
        × (chars evt.message ≤ 500))

diagnose_allowed : elem "diagnose" allowed_steps ≡ true
unfolding elem
diagnose_allowed = refl

known_step :
    (step : String)
    → elem (if elem step allowed_steps then step else "diagnose") allowed_steps ≡ true
known_step step = elim (Bool-cases (elem step allowed_steps)) [
  | inl known ↦ rw known known
  | inr other ↦ rw other diagnose_allowed
]

module _ (fault_event_id step message id : String) (now : Timestamp) (s : GatewayStore) where
  Extends-post_activity :
      Extends fault_event_id s.activity_events
        (post_activity (request_of fault_event_id step message) id now s).1.activity_events
  unfolding post_activity request_of Store.create_activity Store.publish
  Extends-post_activity = inr (_, refl, refl, known_step step, chars-slice_to 500 message)

  -- However the call goes, the narration leaves the fault events, assets, notifications and tokens of
  -- the Gateway as they are and adds at most one line to the feed, about its own fault event, with an
  -- allowed step and at most 500 characters.
  pub notify_effect :
      (delivery : Delivery) (status : ℕ)
      → let after = (notify_post_activity delivery status fault_event_id step message id now s).1 in
        (after.fault_events ≡ s.fault_events)
        × (after.assets ≡ s.assets)
        × (after.notifications ≡ s.notifications)
        × (after.pending_tokens ≡ s.pending_tokens)
        × Extends fault_event_id s.activity_events after.activity_events
  unfolding notify_post_activity post_activity Store.create_activity Store.publish
  notify_effect Delivery.answered status = (refl, refl, refl, refl, Extends-post_activity)
  notify_effect Delivery.rejected status = (refl, refl, refl, refl, inl refl)
  notify_effect Delivery.lost status = (refl, refl, refl, refl, inl refl)
  notify_effect Delivery.unanswered status = (refl, refl, refl, refl, Extends-post_activity)
