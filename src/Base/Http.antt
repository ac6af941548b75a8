-- ===== src/Base/Http.antt =====
-- FastAPI's `HTTPException`, which a handler of any of the services answers with, and what an HTTP
-- call between the services meets.
use nemoclaw_lab_cl.Base.{ℕ, String, Bool, true, false}

pub record HttpError : Type 0 where
  pub status_code : ℕ
  pub detail : String

-- What happens to a call: it is answered with success, answered with an error status, never
-- handled, or handled with its answer lost. The last two raise an `httpx.HTTPError`.
pub data Delivery : Type 0 where
  answered rejected lost unanswered : Delivery

unfoldable pub handled : Delivery → Bool
handled Delivery.answered = true
handled Delivery.unanswered = true
handled _ = false
