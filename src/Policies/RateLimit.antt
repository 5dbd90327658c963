-- ===== src/Policies/RateLimit.antt =====
-- policies/rate_limit.py: the sliding-window rate limiter. Times are numbers of clock ticks, and
-- `now` is what `time.time()` returns in the call.
pub mod Spec
pub mod Window
pub mod Refines
use plugin_baselithbot.Common.{
  ℕ, ◌-◌, String, Bool, true, false, none, some, List, [], ◌∷◌, ◌++◌, ltb, leb, if◌then◌else◌,
}
use plugin_baselithbot.Lists.{length}
use plugin_baselithbot.Dict.{Dict, get, put}

pub record RateLimitState : Type 0 where
  pub window_seconds : ℕ
  pub max_events : ℕ
  pub events : List ℕ

pub record RateLimiter : Type 0 where
  pub window : ℕ
  pub max_events : ℕ
  pub buckets : Dict RateLimitState

abbrev pub init : ℕ → ℕ → RateLimiter
init window max_events = record { window = window; max_events = max_events; buckets = [] }

-- The bucket of a key, which is made and stored if there is none.
unfoldable pub bucket : RateLimiter → String → RateLimitState × RateLimiter
bucket l key = elim (get l.buckets key) [
  | some b ↦ (b, l)
  | none ↦
      let b : RateLimitState = record {
        window_seconds = l.window;
        max_events = l.max_events;
        events = [];
      } in
      (b, record l { buckets = put l.buckets key b })
]

-- The loop that pops the oldest events while they are before the cutoff.
unfoldable pub drop_before : ℕ → List ℕ → List ℕ
drop_before cutoff [] = []
drop_before cutoff (e ∷ es) = if ltb e cutoff then drop_before cutoff es else e ∷ es

-- The bucket is a shared object: a change of its events is seen in the table.
unfoldable pub store : RateLimiter → String → RateLimitState → List ℕ → RateLimiter
store l key b evs = record l { buckets = put l.buckets key (record b { events = evs }) }

unfoldable pub consume_in : RateLimiter → String → RateLimitState → ℕ → RateLimiter × Bool
unfolding store drop_before
consume_in l key b now =
    let evs = drop_before (now - b.window_seconds) b.events in
    if leb b.max_events (length evs)
    then (store l key b evs, false)
    else (store l key b (evs ++ now ∷ []), true)

unfoldable pub consume : RateLimiter → String → ℕ → RateLimiter × Bool
unfolding bucket consume_in
consume l key now = let (b, l') = bucket l key in consume_in l' key b now

unfoldable pub remaining : RateLimiter → String → ℕ → RateLimiter × ℕ
unfolding bucket store drop_before
remaining l key now =
    let (b, l') = bucket l key in
    let evs = drop_before (now - b.window_seconds) b.events in
    (store l' key b evs, b.max_events - length evs)

-- The events in the bucket of a key; a key with no bucket has none.
abbrev pub events_of : RateLimiter → String → List ℕ
events_of l key = elim (get l.buckets key) [ none ↦ [] | some b ↦ b.events ]

-- The calls of `consume`, each with its time, and the answers.
unfoldable pub run : RateLimiter → List (String × ℕ) → List Bool
run l [] = []
run l ((key, now) ∷ calls) = let (l', answer) = consume l key now in answer ∷ run l' calls
