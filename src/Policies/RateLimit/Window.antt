-- ===== src/Policies/RateLimit/Window.antt =====
-- The limiter answers as the specification over the whole history does.
use plugin_baselithbot.Common.{
  ℕ, ◌-◌, ◌≤◌, String, ◌≡◌, refl, some, List, [], ◌∷◌, ◌++◌, arith, inl, inr, not, ◌==◌, leb,
  if◌then◌else◌, Option-cases,
}
use plugin_baselithbot.Lists.{length, All, All-append}
use plugin_baselithbot.Dict.{get, get-put}
use plugin_baselithbot.Policies.RateLimit.{
  RateLimitState, RateLimiter, drop_before, events_of, consume, bucket, consume_in, init,
}
use plugin_baselithbot.Policies.RateLimit.Spec.{Entry, times, count_since, Sorted, admits}

-- Dropping at a later cutoff forgets an earlier one.
pub drop_before_twice :
    (c d : ℕ) (ts : List ℕ) → c ≤ d → drop_before d (drop_before c ts) ≡ drop_before d ts
unfolding drop_before
drop_before_twice c d [] h = refl
drop_before_twice c d (t ∷ ts) h = ground (arith, drop_before_twice c d ts h)

pub drop_before-append_one :
    (c t : ℕ) (ts : List ℕ) → c ≤ t → drop_before c (ts ++ t ∷ []) ≡ drop_before c ts ++ t ∷ []
unfolding drop_before
drop_before-append_one c t [] h = ground arith
drop_before-append_one c t (u ∷ ts) h = ground (arith, drop_before-append_one c t ts h)

count_since-All :
    (c t : ℕ) (ts : List ℕ) → c ≤ t → All (λ u. t ≤ u) ts → count_since c ts ≡ length ts
unfolding count_since
count_since-All c t [] h a = refl
count_since-All c t (u ∷ ts) h a = ground (arith, count_since-All c t ts h a.1)

-- In a sorted history the events that stay are those at or after the cutoff.
length-drop_before :
    (c : ℕ) (ts : List ℕ) → Sorted ts → length (drop_before c ts) ≡ count_since c ts
unfolding drop_before count_since
length-drop_before c [] s = refl
length-drop_before c (t ∷ ts) s =
    ground (arith, length-drop_before c ts s.1, count_since-All c t ts)

pub Sorted-append_one :
    (ts : List ℕ) (t : ℕ) → Sorted ts → All (λ u. u ≤ t) ts → Sorted (ts ++ t ∷ [])
Sorted-append_one [] t s a = (tt, tt)
Sorted-append_one (u ∷ ts) t s a =
    (All-append (λ v. u ≤ v) ts (t ∷ []) s.0 (a.0, tt), Sorted-append_one ts t s.1 a.1)

pub All-le_trans : (a b : ℕ) (ts : List ℕ) → a ≤ b → All (λ u. u ≤ a) ts → All (λ u. u ≤ b) ts
All-le_trans a b [] h x = tt
All-le_trans a b (t ∷ ts) h x = (omega arith, All-le_trans a b ts h x.1)

abbrev pub HasBounds : RateLimiter → Type 0
HasBounds l =
    (k : String) (b : RateLimitState)
    → get l.buckets k ≡ some b
    → (b.window_seconds ≡ l.window) × (b.max_events ≡ l.max_events)

-- The events of a bucket after a call that finds `evs` in it.
abbrev pub after : ℕ → ℕ → List ℕ → List ℕ
after max_events now evs = if leb max_events (length evs) then evs else evs ++ now ∷ []

consume_in-buckets :
    (l : RateLimiter) (key : String) (b : RateLimitState) (now : ℕ) (k : String)
    → get (consume_in l key b now).0.buckets k ≡ (
        if key == k
        then some (record b {
          events = after b.max_events now (drop_before (now - b.window_seconds) b.events);
        })
        else get l.buckets k)
unfolding consume_in
consume_in-buckets l key b now k =
    let evs = drop_before (now - b.window_seconds) b.events in
    ground (
      arith,
      get-put l.buckets key k (record b { events = evs }),
      get-put l.buckets key k (record b { events = evs ++ now ∷ [] }),
    )

module _ (l : RateLimiter) (key : String) (now : ℕ) (h : HasBounds l) where
  abbrev pub found : List ℕ
  found = drop_before (now - l.window) (events_of l key)

  pub consume-answer : (consume l key now).1 ≡ not (leb l.max_events (length found))
  unfolding consume
  consume-answer = elim (Option-cases (get l.buckets key)) [
    | inl e ↦ ground arith
    | inr (b, e) ↦ ground (arith, h key b e)
  ]

  pub consume-window :
      ((consume l key now).0.window ≡ l.window) × ((consume l key now).0.max_events ≡ l.max_events)
  unfolding consume
  consume-window = ground arith

  consume-buckets :
      (k : String)
      → get (consume l key now).0.buckets k ≡ (
          if key == k
          then some (record {
            window_seconds = l.window;
            max_events = l.max_events;
            events = after l.max_events now found;
          })
          else get l.buckets k)
  unfolding consume
  consume-buckets k = elim (Option-cases (get l.buckets key)) [
    | inl e ↦ ground (
      arith,
      consume_in-buckets (bucket l key).1 key (bucket l key).0 now k,
      get-put l.buckets key k (bucket l key).0,
    )
    | inr (b, e) ↦ ground (arith, h key b e, consume_in-buckets l key b now k)
  ]

  pub consume-HasBounds : HasBounds (consume l key now).0
  consume-HasBounds k b e = ground (arith, consume-buckets k, consume-window, h k b)

  -- What a call does to the events of each key.
  pub consume-events :
      (k : String)
      → events_of (consume l key now).0 k
        ≡ (if key == k then after l.max_events now found else events_of l k)
  consume-events k = ground (arith, consume-buckets k)

-- The bucket of each key holds what some cutoff leaves of its history; the history of each key is
-- sorted and ends by `start`, and the bounds of every bucket are those of the limiter.
pub record Tracks (l : RateLimiter) (log : List Entry) (start : ℕ) : Type 0 where
  pub at_key :
      (k : String)
      → (c : ℕ) × (c ≤ start - l.window) × (events_of l k ≡ drop_before c (times k log))
  pub sorted : (k : String) → Sorted (times k log)
  pub before : (k : String) → All (λ t. t ≤ start) (times k log)
  pub bounds : HasBounds l

pub init-Tracks : (window max_events : ℕ) → Tracks (init window max_events) [] 0
unfolding get drop_before times
init-Tracks window max_events = record {
  at_key = λ k. (0, omega arith, refl);
  sorted = λ k. tt;
  before = λ k. tt;
  bounds = λ k b e. cc;
}

module _ (l : RateLimiter) (log : List Entry) (start : ℕ) (t : Tracks l log start) (key : String)
    (now : ℕ) (later : start ≤ now) where
  pub found-eq : found l key now t.bounds ≡ drop_before (now - l.window) (times key log)
  found-eq =
      let (c, early, e) = t.at_key key in
      rw e (drop_before_twice c (now - l.window) (times key log) (omega arith))

  pub length-found :
      length (found l key now t.bounds) ≡ count_since (now - l.window) (times key log)
  length-found = rw found-eq (length-drop_before (now - l.window) (times key log) (t.sorted key))

  -- The answer of a call is the decision of the specification.
  pub consume-admits : (consume l key now).1 ≡ admits l.window l.max_events log key now
  unfolding admits
  consume-admits = ground (arith, consume-answer l key now t.bounds, length-found)

  abbrev pub extended : List Entry
  extended = if admits l.window l.max_events log key now then log ++ (key, now) ∷ [] else log
