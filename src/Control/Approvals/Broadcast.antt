-- ===== src/Control/Approvals/Broadcast.antt =====
-- The fan-out of an event to the listeners of the gate: `_broadcast`, with `unsubscribe` and the
-- bounded `asyncio.Queue`. A queue is an object, known by a number; its consumers are not modelled.
use plugin_baselithbot.Common.{ℕ, String, Bool, List, [], ◌∷◌, ◌++◌, map, leb, eqb, if◌then◌else◌}
use plugin_baselithbot.Lists.{length}

pub record Message (B : Type 0) : Type 0 where
  pub event_type : String
  pub payload : B

pub record Listener (B : Type 0) : Type 0 where
  pub queue : ℕ
  pub messages : List (Message B)

-- asyncio.Queue(maxsize=64)
abbrev pub queue_size : ℕ
queue_size = 64

module _ {B : Type 0} where
  unfoldable pub is_full : Listener B → Bool
  is_full q = leb queue_size (length q.messages)

  -- queue.put_nowait(message), where `QueueFull` leaves the queue as it was
  unfoldable pub offer : Message B → Listener B → Listener B
  unfolding is_full
  offer m q = if is_full q then q else record q { messages = q.messages ++ m ∷ [] }

  -- self._listeners.remove(queue); a queue that is not there is ignored
  unfoldable pub remove_listener : List (Listener B) → ℕ → List (Listener B)
  remove_listener [] queue = []
  remove_listener (l ∷ ls) queue = if eqb l.queue queue then ls else l ∷ remove_listener ls queue

  unfoldable pub dead : List (Listener B) → List ℕ
  unfolding is_full
  dead [] = []
  dead (l ∷ ls) = if is_full l then l.queue ∷ dead ls else dead ls

  unfoldable pub remove_all : List (Listener B) → List ℕ → List (Listener B)
  unfolding remove_listener
  remove_all ls [] = ls
  remove_all ls (q ∷ qs) = remove_all (remove_listener ls q) qs

  unfoldable pub broadcast : List (Listener B) → String → B → List (Listener B)
  unfolding offer dead remove_all
  broadcast ls event_type payload =
      remove_all (map (offer (record { event_type = event_type; payload = payload })) ls) (dead ls)
