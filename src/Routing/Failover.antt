-- ===== src/Routing/Failover.antt =====
-- model_routing/failover.py: the providers in order, without those that rest after a failure. `S` is the
-- state of the program beside the policy, `R` what an action returns. An action is awaited, so that
-- other calls may change the states of the providers before it returns: it acts on them as well.
pub mod Order
use plugin_baselithbot.Common.{
  ℕ, zero, suc, ◌+◌, String, Bool, true, false, ◌&&◌, Option, none, some, List, [], ◌∷◌, map, ltb,
  leb, eqb, if◌then◌else◌,
}

pub record ProviderConfig : Type 0 where
  pub name : String
  pub model : String
  pub weight : ℕ
  pub cooldown_seconds : ℕ

pub record ProviderState : Type 0 where
  pub config : ProviderConfig
  pub last_failure_at : ℕ
  pub failures : ℕ
  pub successes : ℕ

-- How an action ends: a `ProviderError` comes with the clock that its handler reads.
pub data Outcome (R : Type 0) : Type 0 where
  returns : R → Outcome R
  provider_error : String → ℕ → Outcome R
  raises : String → Outcome R

-- How `call` ends: with the provider's name and result, with the `ProviderError` for all and the last
-- error, or with another exception of an action.
pub data Answer (R : Type 0) : Type 0 where
  answered : String → R → Answer R
  all_failed : Option String → Answer R
  raised : String → Answer R

abbrev new_state : ProviderConfig → ProviderState
new_state c = record { config = c; last_failure_at = 0; failures = 0; successes = 0 }

-- `none` is the `ValueError`.
unfoldable pub init : List ProviderConfig → Option (List ProviderState)
init [] = none
init (c ∷ cs) = some (map new_state (c ∷ cs))

-- The test of a provider in cooldown: now - last_failure_at < cooldown_seconds.
unfoldable pub resting : ℕ → ProviderState → Bool
resting now st = leb 1 st.failures && ltb now (st.last_failure_at + st.config.cooldown_seconds)

abbrev pub succeeded : ProviderState → ProviderState
succeeded st = record st { successes = suc st.successes; failures = 0 }

abbrev pub failed : ProviderState → ℕ → ProviderState
failed st now = record st { failures = suc st.failures; last_failure_at = now }

-- The state that an action finds: the rest of the program, and the states of the policy's providers.
abbrev pub World : Type 0 → Type 0
World S = S × List ProviderState

abbrev pub Action : Type 0 → Type 0 → Type 0
Action S R = ProviderConfig → World S → World S × Outcome R

-- The provider at a position, and a change of it.
unfoldable pub provider_at : ℕ → List ProviderState → Option ProviderState
provider_at i [] = none
provider_at zero (st ∷ sts) = some st
provider_at (suc i) (st ∷ sts) = provider_at i sts

unfoldable pub change_at :
    ℕ → (ProviderState → ProviderState) → List ProviderState → List ProviderState
change_at i f [] = []
change_at zero f (st ∷ sts) = f st ∷ sts
change_at (suc i) f (st ∷ sts) = st ∷ change_at i f sts

unfoldable pub positions : ℕ → List ProviderState → List ℕ
positions i [] = []
positions i (st ∷ sts) = i ∷ positions (suc i) sts

abbrev pub change : {S : Type 0} → World S → ℕ → (ProviderState → ProviderState) → World S
change (s, sts) i f = (s, change_at i f sts)

module _ {S R : Type 0} where
  -- The loop over the providers at the positions, with the last error so far.
  unfoldable pub try_all : Action S R → ℕ → World S → List ℕ → Option String → World S × Answer R
  unfolding provider_at change_at
  try_all action now w [] last = (w, all_failed last)
  try_all action now w (i ∷ is) last = elim (provider_at i w.1) [
    | none ↦ try_all action now w is last
    | some st ↦ elim (resting now st) [
      | true ↦ try_all action now w is last
      | false ↦
          let (w', outcome) = action st.config w in
          elim outcome [
            | returns r ↦ (change w' i succeeded, answered st.config.name r)
            | provider_error e at ↦ try_all action now (change w' i (λ x. failed x at)) is (some e)
            | raises e ↦ (w', raised e)
          ]
    ]
  ]

  unfoldable pub call : Action S R → ℕ → World S → World S × Answer R
  unfolding try_all positions
  call action now w = try_all action now w (positions 0 w.1) none

-- A row of `status`.
pub record ProviderStatus : Type 0 where
  pub name : String
  pub model : String
  pub in_cooldown : Bool
  pub failures : ℕ
  pub successes : ℕ
  pub last_failure_at : Option ℕ

unfoldable pub status : List ProviderState → ℕ → List ProviderStatus
unfolding resting
status sts now =
    map
      (λ st. record {
        name = st.config.name;
        model = st.config.model;
        in_cooldown = resting now st;
        failures = st.failures;
        successes = st.successes;
        last_failure_at = if eqb st.last_failure_at 0 then none else some st.last_failure_at;
      })
      sts
