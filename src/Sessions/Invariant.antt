-- ===== src/Sessions/Invariant.antt =====
-- What every call on the session manager keeps.
use plugin_baselithbot.Common.{
  ℕ, ◌-◌, ◌≤◌, String, ◌≡◌, inl, inr, some, List, [], arith, Bool-cases, Option-cases, is_some,
  Bool, eq_iff, ◌<◌, refl, ◌&&◌, ◌∷◌, ltb, ltb→lt, ltb_false→le,
}
use plugin_baselithbot.Lists.{length, push_bounded, length-push_bounded-le}
use plugin_baselithbot.Dict.{
  get, retain, keys, get-remove, get-adjust, length-remove-le, put, get-put, length-adjust, Dict,
  remove, length-put-le, pop_first,
}
use plugin_baselithbot.Dict.Keys.{
  IsDistinct, remove-IsDistinct, get-remove_all, remove_all-IsDistinct, length-remove_all-le,
  adjust-IsDistinct, put-IsDistinct, pop_first_lem, pop_first-none,
}
use plugin_baselithbot.Sessions.{
  SessionMessage, Session, SessionManager, reset, delete, is_stale, prune_inactive, new_session,
  sent, Call, creates, sends, resets, deletes, prunes, init, evict_oldest, create, send, step,
  call_all, call_all,
}

-- Each session is stored once, under its id, and has a history within the limit; there is no history
-- without a session, and there are no more sessions than allowed.
pub record IsValid {D : Type 0} (m : SessionManager D) : Type 0 where
  pub distinct : IsDistinct m.sessions
  pub bounded : length m.sessions ≤ m.max_sessions
  pub same_keys : (k : String) → is_some (get m.histories k) ≡ is_some (get m.sessions k)
  pub short :
      (k : String) (ms : List (SessionMessage D))
      → get m.histories k ≡ some ms
      → length ms ≤ m.history_limit
  pub named : (k : String) (s : Session D) → get m.sessions k ≡ some s → s.id ≡ k

module _ {D : Type 0} (m : SessionManager D) (v : IsValid m) where
  delete-IsValid : (sid : String) → IsValid (delete m sid).0
  unfolding delete
  delete-IsValid sid = record {
    distinct = remove-IsDistinct m.sessions sid v.distinct;
    bounded = ground (arith, v.bounded, length-remove-le m.sessions sid);
    same_keys = λ k.
        ground (arith, get-remove m.sessions sid k, get-remove m.histories sid k, v.same_keys k);
    short = λ k ms e. ground (arith, get-remove m.histories sid k, v.short k ms);
    named = λ k s e. ground (arith, get-remove m.sessions sid k, v.named k s);
  }

  reset-IsValid : (sid : String) → IsValid (reset m sid)
  unfolding reset
  reset-IsValid sid = elim (Bool-cases (is_some (get m.histories sid))) [
    | inl here ↦ rw here (record {
      distinct = v.distinct;
      bounded = v.bounded;
      same_keys = λ k. ground (arith, get-adjust m.histories sid k (λ _. []), v.same_keys k);
      short = λ k ms e. elim (Option-cases (get m.histories k)) [
        | inl n ↦ absurd (ground (arith, get-adjust m.histories sid k (λ _. [])))
        | inr (ns, n) ↦ ground (arith, get-adjust m.histories sid k (λ _. []), v.short k ns)
      ];
      named = v.named;
    })
    | inr gone ↦ rw gone v
  ]

  prune-IsValid : (ttl now : ℕ) → IsValid (prune_inactive m ttl now).0
  unfolding prune_inactive
  prune-IsValid ttl now =
      let stale = keys (retain (is_stale (now - ttl)) m.sessions) in
      record {
        distinct = remove_all-IsDistinct m.sessions stale v.distinct;
        bounded = ground (arith, v.bounded, length-remove_all-le m.sessions stale);
        same_keys = λ k. ground (
          arith,
          get-remove_all m.sessions stale k,
          get-remove_all m.histories stale k,
          v.same_keys k,
        );
        short = λ k ms e. ground (arith, get-remove_all m.histories stale k, v.short k ms);
        named = λ k s e. ground (arith, get-remove_all m.sessions stale k, v.named k s);
      }

  pub sent-IsValid :
      (sid : String) (message : SessionMessage D) (now : ℕ) → IsValid (sent m sid message now)
  sent-IsValid sid message now = record {
    distinct = adjust-IsDistinct m.sessions sid (λ s. record s { last_active = now }) v.distinct;
    bounded =
        ground
          (arith, v.bounded, length-adjust m.sessions sid (λ s. record s { last_active = now }));
    same_keys = λ k. ground (
      arith,
      get-adjust m.histories sid k (λ ms. push_bounded m.history_limit ms message),
      get-adjust m.sessions sid k (λ s. record s { last_active = now }),
      v.same_keys k,
    );
    short = λ k ms e. elim (Option-cases (get m.histories k)) [
      | inl n ↦ absurd (
          ground
            (arith, get-adjust m.histories sid k (λ ms. push_bounded m.history_limit ms message)))
      | inr (ns, n) ↦ ground (
        arith,
        get-adjust m.histories sid k (λ ms. push_bounded m.history_limit ms message),
        v.short k ns,
        length-push_bounded-le m.history_limit ns message,
      )
    ];
    named = λ k s e. elim (Option-cases (get m.sessions k)) [
      | inl n ↦
          absurd (ground (arith, get-adjust m.sessions sid k (λ s. record s { last_active = now })))
      | inr (t, n) ↦
          ground
            (arith, get-adjust m.sessions sid k (λ s. record s { last_active = now }), v.named k t)
    ];
  }

  -- A session is entered with an empty history, before the limit on their number is enforced.
  abbrev entered : String → String → Bool → ℕ → SessionManager D
  entered sid title primary now = record m {
    sessions = put m.sessions sid (new_session sid title primary now);
    histories = put m.histories sid [];
  }

  entered-lookups :
      (sid title : String) (primary : Bool) (now : ℕ) (k : String)
      → (is_some (get (entered sid title primary now).histories k)
          ≡ is_some (get (entered sid title primary now).sessions k))
        × ((ms : List (SessionMessage D))
            → get (entered sid title primary now).histories k ≡ some ms
            → length ms ≤ m.history_limit)
        × ((s : Session D) → get (entered sid title primary now).sessions k ≡ some s → s.id ≡ k)
  entered-lookups sid title primary now k =
      let g = get-put m.sessions sid k (new_session sid title primary now) in
      let h = get-put m.histories sid k [] in
      (
        ground (arith, g, h, v.same_keys k),
        λ ms e. ground (arith, h, v.short k ms),
        λ s e. ground (arith, g, v.named k s, eq_iff sid k),
      )

  evicted-IsValid :
      (sid title : String) (primary : Bool) (now : ℕ) (oldest : String) (rest : Dict (Session D))
      → pop_first (entered sid title primary now).sessions ≡ some (oldest, rest)
      → IsValid (record (entered sid title primary now) {
        sessions = rest;
        histories = remove (entered sid title primary now).histories oldest;
      })
  evicted-IsValid sid title primary now oldest rest e =
      let n = entered sid title primary now in
      let (distinct, shorter, lookups) =
        pop_first_lem n.sessions oldest rest
          (put-IsDistinct m.sessions sid (new_session sid title primary now) v.distinct) e in
      record {
        distinct = distinct;
        bounded = omega (
          arith,
          shorter,
          v.bounded,
          length-put-le m.sessions sid (new_session sid title primary now),
        );
        same_keys = λ k. ground (
          arith,
          lookups k,
          get-remove n.histories oldest k,
          (entered-lookups sid title primary now k).0,
        );
        short = λ k ms p.
            (entered-lookups sid title primary now k).1 ms
              (ground (arith, get-remove n.histories oldest k));
        named = λ k s p. (entered-lookups sid title primary now k).2 s (ground (arith, lookups k));
      }

  evict-IsValid :
      (sid title : String) (primary : Bool) (now : ℕ)
      → m.max_sessions < length (entered sid title primary now).sessions
      → IsValid (evict_oldest (entered sid title primary now))
  unfolding evict_oldest
  evict-IsValid sid title primary now full =
      elim (Option-cases (pop_first (entered sid title primary now).sessions)) [
        | inl e ↦
            absurd (omega (arith, full, pop_first-none (entered sid title primary now).sessions e))
        | inr ((oldest, rest), e) ↦
            rw (e, evict_oldest) (evicted-IsValid sid title primary now oldest rest e)
      ]

  pub create-IsValid :
      (sid title : String) (primary : Bool) (now : ℕ) → IsValid (create m sid title primary now).0
  unfolding create
  create-IsValid sid title primary now =
      elim (Bool-cases (ltb m.max_sessions (length (entered sid title primary now).sessions))) [
        | inl full ↦ rw full (evict-IsValid sid title primary now (ltb→lt _ _ full))
        | inr room ↦ rw room (record {
          distinct = put-IsDistinct m.sessions sid (new_session sid title primary now) v.distinct;
          bounded = ltb_false→le _ _ room;
          same_keys = λ k. (entered-lookups sid title primary now k).0;
          short = λ k. (entered-lookups sid title primary now k).1;
          named = λ k. (entered-lookups sid title primary now k).2;
        })
      ]

module _ {D : Type 0} where
  pub step-IsValid : (m : SessionManager D) (c : Call D) → IsValid m → IsValid (step m c)
  unfolding step send
  step-IsValid m (creates sid title primary now) v =
      elim (Bool-cases (is_some (get m.sessions sid))) [
        | inl e ↦ rw e v
        | inr e ↦ rw e (create-IsValid m v sid title primary now)
      ]
  step-IsValid m (sends sid message now) v =
      elim (Bool-cases (is_some (get m.sessions sid) && is_some (get m.histories sid))) [
        | inl e ↦ rw (e, step, send) (sent-IsValid m v sid message now)
        | inr e ↦ rw (e, step, send) v
      ]
  step-IsValid m (resets sid) v = reset-IsValid m v sid
  step-IsValid m (deletes sid) v = delete-IsValid m v sid
  step-IsValid m (prunes ttl now) v = prune-IsValid m v ttl now

  pub call_all-IsValid_from :
      (m : SessionManager D) (cs : List (Call D)) → IsValid m → IsValid (call_all m cs)
  unfolding call_all
  call_all-IsValid_from m [] v = v
  call_all-IsValid_from m (c ∷ cs) v = call_all-IsValid_from (step m c) cs (step-IsValid m c v)

  -- After any calls on a new manager each session is stored once and under its own id, every session
  -- and no other id has a history, no history is longer than the history limit, and there are no
  -- more sessions than the limit on sessions.
  pub call_all-IsValid :
      (history_limit max_sessions : ℕ) (cs : List (Call D))
      → IsValid (call_all (init history_limit max_sessions) cs)
  unfolding get
  call_all-IsValid history_limit max_sessions cs =
      call_all-IsValid_from (init history_limit max_sessions) cs (record {
        distinct = tt;
        bounded = omega arith;
        same_keys = λ k. refl;
        short = λ k ms e. cc;
        named = λ k s e. cc;
      })
