-- ===== src/Policies/RateLimit/Spec.antt =====
-- What the limiter promises, written over the whole history of accepted events: a call is accepted
-- exactly when fewer than `max_events` accepted events of its key lie in the window before it.
use mathlib.Core.List.{append-nil, append_assoc}
use plugin_baselithbot.Common.{
  ℕ, suc, ◌+◌, ◌-◌, ◌≤◌, String, ◌≡◌, refl, Bool, List, [], ◌∷◌, ◌++◌, arith, ◌==◌, ltb,
  if◌then◌else◌, sym, ◌∙◌, inl, inr, ◌&&◌, leb, Bool-cases, true, eq_iff,
}
use plugin_baselithbot.Lists.{All}

-- One accepted event: its key and its time.
abbrev pub Entry : Type 0
Entry = String × ℕ

-- The times of one key, in the order of the history.
unfoldable pub times : String → List Entry → List ℕ
times key [] = []
times key ((k, t) ∷ log) = if k == key then t ∷ times key log else times key log

-- The number of times at or after the cutoff.
unfoldable pub count_since : ℕ → List ℕ → ℕ
count_since cutoff [] = 0
count_since cutoff (t ∷ ts) =
    if ltb t cutoff then count_since cutoff ts else suc (count_since cutoff ts)

-- The decision at a time, from the history.
unfoldable pub admits : ℕ → ℕ → List Entry → String → ℕ → Bool
admits window max_events log key now = ltb (count_since (now - window) (times key log)) max_events

unfoldable pub decide_all : ℕ → ℕ → List Entry → List (String × ℕ) → List Bool
decide_all window max_events log [] = []
decide_all window max_events log ((key, now) ∷ calls) =
    let answer = admits window max_events log key now in
    answer ∷ decide_all window max_events (if answer then log ++ (key, now) ∷ [] else log) calls

-- The history after the calls.
unfoldable pub history : ℕ → ℕ → List Entry → List (String × ℕ) → List Entry
history window max_events log [] = log
history window max_events log ((key, now) ∷ calls) =
    history window max_events
      (if admits window max_events log key now then log ++ (key, now) ∷ [] else log) calls

-- The times of the calls do not fall, and none is before `start`.
abbrev pub Ascending : ℕ → List (String × ℕ) → Type 0
Ascending start [] = Unit
Ascending start ((key, now) ∷ calls) = (start ≤ now) × Ascending now calls

abbrev pub Sorted : List ℕ → Type 0
Sorted [] = Unit
Sorted (t ∷ ts) = All (λ u. t ≤ u) ts × Sorted ts

pub times-append :
    (key : String) (log log' : List Entry)
    → times key (log ++ log') ≡ times key log ++ times key log'
unfolding times
times-append key [] log' = refl
times-append key ((k, t) ∷ log) log' = ground (arith, times-append key log log')

pub count_since-append :
    (c : ℕ) (xs ys : List ℕ) → count_since c (xs ++ ys) ≡ count_since c xs + count_since c ys
unfolding count_since
count_since-append c [] ys = omega arith
count_since-append c (x ∷ xs) ys = ground (arith, count_since-append c xs ys)

pub count_since_mono : (c d : ℕ) (ts : List ℕ) → c ≤ d → count_since d ts ≤ count_since c ts
unfolding count_since
count_since_mono c d [] h = omega arith
count_since_mono c d (t ∷ ts) h = ground (arith, count_since_mono c d ts h)

pub admits-eq :
    (window max_events : ℕ) (log : List Entry) (key : String) (now : ℕ)
    → admits window max_events log key now
      ≡ ltb (count_since (now - window) (times key log)) max_events
unfolding admits
admits-eq window max_events log key now = refl

-- The calls that were accepted, given the answers.
unfoldable pub accepted : List Entry → List Bool → List Entry
accepted [] answers = []
accepted (c ∷ calls) [] = []
accepted (c ∷ calls) (answer ∷ answers) =
    if answer then c ∷ accepted calls answers else accepted calls answers

-- The number of times between two bounds, both included.
unfoldable pub count_within : ℕ → ℕ → List ℕ → ℕ
count_within lo hi [] = 0
count_within lo hi (t ∷ ts) =
    if leb lo t && leb t hi then suc (count_within lo hi ts) else count_within lo hi ts

pub count_within-append :
    (lo hi : ℕ) (xs ys : List ℕ)
    → count_within lo hi (xs ++ ys) ≡ count_within lo hi xs + count_within lo hi ys
unfolding count_within
count_within-append lo hi [] ys = omega arith
count_within-append lo hi (x ∷ xs) ys = ground (arith, count_within-append lo hi xs ys)

pub count_within-le_since :
    (lo hi c : ℕ) (ts : List ℕ) → c ≤ lo → count_within lo hi ts ≤ count_since c ts
unfolding count_within count_since
count_within-le_since lo hi c [] h = omega arith
count_within-le_since lo hi c (t ∷ ts) h = ground (arith, count_within-le_since lo hi c ts h)

-- The accepted calls are what the history gains.
pub history-accepted :
    (window max_events : ℕ) (log calls : List Entry)
    → history window max_events log calls
      ≡ log ++ accepted calls (decide_all window max_events log calls)
unfolding history accepted decide_all
history-accepted w m log [] = sym (append-nil log)
history-accepted w m log ((key, now) ∷ calls) = elim (Bool-cases (admits w m log key now)) [
  | inl e ↦ rw e (
      history-accepted w m (log ++ (key, now) ∷ []) calls
      ∙ append_assoc log ((key, now) ∷ [])
          (accepted calls (decide_all w m (log ++ (key, now) ∷ []) calls)))
  | inr e ↦ rw e (history-accepted w m log calls)
]

extend_bound :
    (w m : ℕ) (log : List Entry) (k : String) (now : ℕ) (key : String) (end_time : ℕ)
    → admits w m log k now ≡ true
    → count_within (end_time - w) end_time (times key log) ≤ m
    → count_within (end_time - w) end_time (times key (log ++ (k, now) ∷ [])) ≤ m
unfolding admits times count_within
extend_bound w m log k now key end_time e h = rw (times-append key log ((k, now) ∷ [])) (
    rw (count_within-append (end_time - w) end_time (times key log) (times key ((k, now) ∷ []))) (
      ground (
        arith,
        eq_iff k key,
        count_within-le_since (end_time - w) end_time (now - w) (times key log),
      )))

-- In no window of the history are there more events of a key than the limit.
pub history_bound :
    (window max_events : ℕ) (log calls : List Entry) (key : String) (end_time : ℕ)
    → count_within (end_time - window) end_time (times key log) ≤ max_events
    → count_within (end_time - window) end_time (times key (history window max_events log calls))
      ≤ max_events
unfolding history
history_bound w m log [] key end_time h = h
history_bound w m log ((k, now) ∷ calls) key end_time h = elim (Bool-cases (admits w m log k now)) [
  | inl e ↦ rw e (
      history_bound w m (log ++ (k, now) ∷ []) calls key end_time
        (extend_bound w m log k now key end_time e h))
  | inr e ↦ rw e (history_bound w m log calls key end_time h)
]
