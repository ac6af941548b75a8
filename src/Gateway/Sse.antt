-- ===== src/Gateway/Sse.antt =====
-- services/gateway/store.py: `SseBroker`, one queue for each subscriber. A queue is known by a
-- number, as an `asyncio.Queue` is by its identity; a payload is the event before `json.dumps`.
use nemoclaw_lab_cl.Base.{ℕ, ◌+◌, String, Option, List, [], ◌∷◌, ◌++◌, ◌=ℕ◌, if◌then◌else◌, length}
use nemoclaw_lab_cl.Models.{FaultEvent, Notification, ActivityEvent, AssetState, ApprovalDecision}

pub data Event : Type 0 where
  fault : FaultEvent → Event
  notification : Notification → Event
  activity : ActivityEvent → Event
  asset : (id : String) → AssetState → (active_fault_event_id : Option String) → Event
  decision : (fault_event_id : String) → ApprovalDecision → Event
  reset : Event

pub record Queue : Type 0 where
  pub identity : ℕ
  pub items : List Event

pub record SseBroker : Type 0 where
  pub queues : List Queue
  pub next : ℕ

abbrev pub empty : SseBroker
empty = record { queues = []; next = 0 }

unfoldable pub subscribe : SseBroker → ℕ × SseBroker
subscribe b = (
  b.next,
  record { queues = b.queues ++ record { identity = b.next; items = [] } ∷ []; next = b.next + 1 },
)

-- `list.remove`, which does nothing here when the queue is not there
remove_queue : ℕ → List Queue → List Queue
remove_queue q [] = []
remove_queue q (x ∷ xs) = if x.identity =ℕ q then xs else x ∷ remove_queue q xs

unfoldable pub unsubscribe : ℕ → SseBroker → SseBroker
unfolding remove_queue
unsubscribe q b = record b { queues = remove_queue q b.queues }

unfoldable pub fanout : Event → List Queue → List Queue
fanout e [] = []
fanout e (q ∷ qs) = record q { items = q.items ++ e ∷ [] } ∷ fanout e qs

unfoldable pub publish : Event → SseBroker → SseBroker
unfolding fanout
publish e b = record b { queues = fanout e b.queues }

unfoldable pub subscriber_count : SseBroker → ℕ
subscriber_count b = length b.queues
