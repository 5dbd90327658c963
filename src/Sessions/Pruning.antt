-- ===== src/Sessions/Pruning.antt =====
-- Which sessions `prune_inactive` drops.
use plugin_baselithbot.Common.{ℕ, ◌+◌, ◌-◌, String, ◌≡◌, not, none, arith, if◌then◌else◌, is_some}
use plugin_baselithbot.Lists.{length}
use plugin_baselithbot.Dict.{get, retain, keys}
use plugin_baselithbot.Dict.Keys.{get-remove_all, remove_all-retain, length-keys, length-retain-not}
use plugin_baselithbot.Sessions.{SessionManager, is_stale, prune_inactive}
use plugin_baselithbot.Sessions.Invariant.{IsValid}

module _ {D : Type 0} where
  -- In a valid manager, pruning leaves exactly the sessions that are primary or were active within the
  -- time allowed, in their order; the number that it returns is the number of sessions dropped, and
  -- the histories that it drops are those of the dropped sessions.
  pub prune-exact :
      (m : SessionManager D) (ttl_seconds now : ℕ)
      → IsValid m
      → let (m', dropped) = prune_inactive m ttl_seconds now in
        (m'.sessions ≡ retain (λ sid s. not (is_stale (now - ttl_seconds) sid s)) m.sessions)
        × (dropped + length m'.sessions ≡ length m.sessions)
        × ((k : String)
            → get m'.histories k
              ≡ (if is_some (get m'.sessions k) then get m.histories k else none))
  unfolding prune_inactive
  prune-exact m ttl_seconds now v =
      let p = is_stale {D = D} (now - ttl_seconds) in
      let kept = remove_all-retain p m.sessions v.distinct in
      (
        kept,
        rw kept (omega (arith, length-retain-not p m.sessions, length-keys (retain p m.sessions))),
        λ k. ground (
          arith,
          get-remove_all m.sessions (keys (retain p m.sessions)) k,
          get-remove_all m.histories (keys (retain p m.sessions)) k,
          v.same_keys k,
        ),
      )
