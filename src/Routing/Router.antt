-- ===== src/Routing/Router.antt =====
-- model_routing/router.py: the failover over providers with a key of the pool for each call.
use plugin_baselithbot.Routing.Failover.{
  ProviderConfig, ProviderState, Outcome, returns, provider_error, raises, Answer, World, call,
}
use plugin_baselithbot.Routing.AuthRotation.{AuthProfile, AuthProfilePool, acquire, report_error}
use plugin_baselithbot.Common.{ℕ, String, none, some, List, [], ◌∷◌}

-- The random index and the clocks that one call of a provider reads.
pub record Readings : Type 0 where
  pub draw : ℕ
  pub now : ℕ
  pub later : ℕ
  pub failed_at : ℕ

-- The readings of the calls of one `invoke`, in order; behind the last, all are zero.
abbrev next_reading : List Readings → Readings × List Readings
next_reading [] = (record { draw = 0; now = 0; later = 0; failed_at = 0 }, [])
next_reading (t ∷ ts) = (t, ts)

pub record ModelRouter : Type 0 where
  pub providers : List ProviderState
  pub auth : AuthProfilePool

-- What the calls find: the pool and the readings beside the states of the providers. The invoker is
-- awaited, so that it may come back after other calls have changed them.
abbrev pub Found : Type 0
Found = World (AuthProfilePool × List Readings)

abbrev pub Invoker : Type 0 → Type 0
Invoker R = ProviderConfig → AuthProfile → Found → Found × Outcome R

abbrev pub reported : Found → String → ℕ → Found
reported ((pool, readings), sts) name at = ((report_error pool name at, readings), sts)

module _ {R : Type 0} where
  -- `_call`: a key is acquired, and a key whose call fails is reported.
  unfoldable pub call_provider : Invoker R → ProviderConfig → Found → Found × Outcome R
  unfolding acquire report_error
  call_provider invoker provider ((pool, readings), sts) =
      let (t, rest) = next_reading readings in
      let (pool', profile) = acquire pool t.draw t.now t.later in
      elim profile [
        | none ↦ (((pool', rest), sts), raises "IndexError")
        | some p ↦
            let (w, outcome) = invoker provider p ((pool', rest), sts) in
            elim outcome [
              | returns r ↦ (w, returns r)
              | provider_error e at ↦ (reported w p.name t.failed_at, provider_error e at)
              | raises e ↦ (w, raises e)
            ]
      ]

  unfoldable pub invoke : Invoker R → ℕ → List Readings → ModelRouter → ModelRouter × Answer R
  unfolding call call_provider
  invoke invoker now readings r =
      let (((auth, rest), providers), answer) =
        call (call_provider invoker) now ((r.auth, readings), r.providers) in
      (record { providers = providers; auth = auth }, answer)
