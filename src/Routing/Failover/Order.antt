-- ===== src/Routing/Failover/Order.antt =====
-- model_routing/failover.py: which provider `call` answers with.
use plugin_baselithbot.Routing.Failover.{
  ProviderState, Outcome, returns, provider_error, answered, resting, succeeded, failed, World,
  Action, provider_at, positions, change, try_all, raises, all_failed, raised, Answer, call,
}
use plugin_baselithbot.Common.{
  ℕ, String, ◌≡◌, inl, inr, true, false, Option, List, [], ◌∷◌, ◌++◌, Bool-cases, Option-cases,
  refl, ap, none, some,
}

module _ {S R : Type 0} (action : Action S R) (now : ℕ) where
  -- The providers at the positions are passed over, one after the other: there is none, it rests as it
  -- stands at its turn, or it is called and fails with a `ProviderError`, which is counted.
  pub data PassedOver : World S → List ℕ → World S → Type 0 where
    done : {w : World S} → PassedOver w [] w
    missing :
        {w w' : World S} {i : ℕ} {is : List ℕ}
        → provider_at i w.1 ≡ none
        → PassedOver w is w'
        → PassedOver w (i ∷ is) w'
    rests :
        {w w' : World S} {i : ℕ} {is : List ℕ} {st : ProviderState}
        → provider_at i w.1 ≡ some st
        → resting now st ≡ true
        → PassedOver w is w'
        → PassedOver w (i ∷ is) w'
    fails :
        {w w₁ w' : World S} {i : ℕ} {is : List ℕ} {st : ProviderState} {e : String} {at : ℕ}
        → provider_at i w.1 ≡ some st
        → resting now st ≡ false
        → action st.config w ≡ (w₁, provider_error e at)
        → PassedOver (change w₁ i (λ x. failed x at)) is w'
        → PassedOver w (i ∷ is) w'

  -- A provider that is not at rest, behind providers that are passed over, with the state in which it
  -- is called.
  pub record CalledIn (w : World S) (is : List ℕ) : Type 0 where
    pub before : List ℕ
    pub here : ℕ
    pub after : List ℕ
    pub between : World S
    pub st : ProviderState
    pub passed : PassedOver w before between
    pub found : provider_at here between.1 ≡ some st
    pub available : resting now st ≡ false
    pub split : is ≡ before ++ here ∷ after

  -- What the loop does, for each way in which it ends.
  abbrev pub Explained : World S → List ℕ → World S × Answer R → Type 0
  Explained w is (w', answered name r) =
      (c : CalledIn w is) × (w₁ : World S) × (action c.st.config c.between ≡ (w₁, returns r))
      × (name ≡ c.st.config.name)
      × (w' ≡ change w₁ c.here succeeded)
  Explained w is (w', all_failed last) = PassedOver w is w'
  Explained w is (w', raised e) =
      (c : CalledIn w is) × (action c.st.config c.between ≡ (w', raises e))

  abbrev called_next :
      {w w₁ : World S} {i : ℕ} {is : List ℕ}
      → ((js : List ℕ) (w' : World S) → PassedOver w₁ js w' → PassedOver w (i ∷ js) w')
      → CalledIn w₁ is
      → CalledIn w (i ∷ is)
  called_next {i = i} over c = record {
    before = i ∷ c.before;
    here = c.here;
    after = c.after;
    between = c.between;
    st = c.st;
    passed = over c.before c.between c.passed;
    found = c.found;
    available = c.available;
    split = ap (λ js. i ∷ js) c.split;
  }

  abbrev called_here :
      (w : World S) (i : ℕ) (is : List ℕ) (st : ProviderState)
      → provider_at i w.1 ≡ some st
      → resting now st ≡ false
      → CalledIn w (i ∷ is)
  called_here w i is st f h = record {
    before = [];
    here = i;
    after = is;
    between = w;
    st = st;
    passed = done;
    found = f;
    available = h;
    split = refl;
  }

  Explained-next :
      (w w₁ : World S) (i : ℕ) (is : List ℕ)
      → ((js : List ℕ) (w' : World S) → PassedOver w₁ js w' → PassedOver w (i ∷ js) w')
      → (result : World S × Answer R) → Explained w₁ is result
      → Explained w (i ∷ is) result
  Explained-next w w₁ i is over (w', answered name r) (c, w₂, e, n, t) =
      (called_next over c, w₂, e, n, t)
  Explained-next w w₁ i is over (w', all_failed last) p = over is w' p
  Explained-next w w₁ i is over (w', raised e) (c, result) = (called_next over c, result)

  -- A provider that was looked up and is not at rest.
  try_all-called :
      (w : World S) (i : ℕ) (is : List ℕ) (st : ProviderState) (last : Option String)
      (o : World S × Outcome R)
      → provider_at i w.1 ≡ some st
      → resting now st ≡ false
      → action st.config w ≡ o
      → ((w₁ : World S) (e : String) → Explained w₁ is (try_all action now w₁ is (some e)))
      → Explained w (i ∷ is) (try_all action now w (i ∷ is) last)
  unfolding try_all
  try_all-called w i is st last (w₁, returns r) f h e k =
      rw (f, try_all)
        (rw (h, try_all)
          (rw e (called_here w i is st f h, w₁, e, refl, ap (λ o. change o.0 i succeeded) e)))
  try_all-called w i is st last (w₁, provider_error failure at) f h e k =
      let w₂ = change w₁ i (λ x. failed x at) in
      rw (f, try_all)
        (rw (h, try_all)
          (rw (ap (λ o. o.1) e) (
            rw (ap (λ o. o.0) e) (
              Explained-next w w₂ i is (λ js w' p. fails f h e p)
                (try_all action now w₂ is (some failure)) (k w₂ failure)))))
  try_all-called w i is st last (w₁, raises failure) f h e k =
      rw (f, try_all)
        (rw (h, try_all)
          (rw (ap (λ o. o.1) e) (rw (ap (λ o. o.0) e) (called_here w i is st f h, e))))

  try_all-Explained :
      (w : World S) (is : List ℕ) (last : Option String)
      → Explained w is (try_all action now w is last)
  unfolding try_all
  try_all-Explained w [] last = done
  try_all-Explained w (i ∷ is) last = elim (Option-cases (provider_at i w.1)) [
    | inl f ↦
        rw (f, try_all)
          (Explained-next w w i is (λ js w' p. missing f p) (try_all action now w is last)
            (try_all-Explained w is last))
    | inr (st, f) ↦ elim (Bool-cases (resting now st)) [
      | inl h ↦
          rw (f, try_all)
            (rw (h, try_all)
              (Explained-next w w i is (λ js w' p. rests f h p) (try_all action now w is last)
                (try_all-Explained w is last)))
      | inr h ↦
          try_all-called w i is st last (action st.config w) f h refl
            (λ w₁ e. try_all-Explained w₁ is (some e))
    ]
  ]

  -- `call` takes the providers in their order, each as it stands at its turn, whatever other calls did
  -- to their states while it awaited. It answers with the result of the first that is neither at rest
  -- nor fails, called in the state that those before it left, and then counts the success and resets
  -- the failures of that provider alone: none behind it is called. With the `ProviderError` for all,
  -- each one rested, was called and failed, which was counted, or is one that an action took out of
  -- the list; another exception comes from a
  -- provider in the same position, and nothing is counted for it.
  pub call-Explained : (w : World S) → Explained w (positions 0 w.1) (call action now w)
  unfolding call
  call-Explained w = try_all-Explained w (positions 0 w.1) none
