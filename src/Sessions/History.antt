-- ===== src/Sessions/History.antt =====
-- What is read back from the history of a session.
use mathlib.Core.List.{append_assoc, append-nil}
use plugin_baselithbot.Common.{
  ℕ, ◌≤◌, ◌<◌, String, ◌≡◌, refl, ◌∙◌, false, Option, none, some, List, [], ◌∷◌, ◌++◌, map, arith,
  ◌==◌, eq_refl,
}
use plugin_baselithbot.Lists.{
  take_last, take_last_of_le, push_bounded, take_last-take_last, push_bounded-take_last,
}
use plugin_baselithbot.Slices.{pos, slice_from-pos, ℤ, neg, slice_from}
use plugin_baselithbot.Dict.{get, get-adjust}
use plugin_baselithbot.Sessions.{SessionMessage, Session, SessionManager, history, sent, send}
use plugin_baselithbot.Sessions.Invariant.{IsValid}

module _ {D : Type 0} where
  -- Messages to one session, each with the time of its call; `none` is the `KeyError` of one of them.
  unfoldable pub send_all :
      SessionManager D → String → List (SessionMessage D × ℕ) → Option (SessionManager D)
  send_all m sid [] = some m
  send_all m sid ((message, now) ∷ rest) = elim (send m sid message now) [
    | none ↦ none
    | some m' ↦ send_all m' sid rest
  ]

  send-sent :
      (m : SessionManager D) (sid : String) (message : SessionMessage D) (now : ℕ) (s : Session D)
      (old : List (SessionMessage D))
      → get m.sessions sid ≡ some s
      → get m.histories sid ≡ some old
      → send m sid message now ≡ some (sent m sid message now)
  unfolding send
  send-sent m sid message now s old e h = ground arith

  send_all-cons :
      (m m' : SessionManager D) (sid : String) (message : SessionMessage D) (now : ℕ)
      (rest : List (SessionMessage D × ℕ))
      → send m sid message now ≡ some m'
      → send_all m sid ((message, now) ∷ rest) ≡ send_all m' sid rest
  unfolding send_all
  send_all-cons m m' sid message now rest e = ground arith

  history-some :
      (m : SessionManager D) (sid : String) (limit : ℤ) (ms : List (SessionMessage D))
      → get m.histories sid ≡ some ms
      → history m sid limit ≡ slice_from (neg limit) ms
  unfolding history
  history-some m sid limit ms e = ground arith

  send_all_from :
      (m : SessionManager D) (sid : String) (messages : List (SessionMessage D × ℕ)) (s : Session D)
      (all : List (SessionMessage D))
      → get m.sessions sid ≡ some s
      → get m.histories sid ≡ some (take_last m.history_limit all)
      → (m' : SessionManager D) × (send_all m sid messages ≡ some m')
        × (get m'.histories sid ≡ some (take_last m.history_limit (all ++ map (λ e. e.0) messages)))
        × ((k : String) → (sid == k) ≡ false → get m'.histories k ≡ get m.histories k)
  unfolding send_all
  send_all_from m sid [] s all e h = (m, refl, rw append-nil h, λ k n. refl)
  send_all_from m sid ((message, now) ∷ rest) s all e h =
      let adjusted =
        get-adjust m.histories sid sid (λ ms. push_bounded m.history_limit ms message) in
      let (m', done, history, others) =
        send_all_from (sent m sid message now) sid rest (record s { last_active = now })
          (all ++ message ∷ [])
          (rw (get-adjust m.sessions sid sid (λ t. record t { last_active = now }), eq_refl sid, e))
          (rw (adjusted, eq_refl sid, h)
            (rw (push_bounded-take_last m.history_limit all message))) in
      (
        m',
        send_all-cons m (sent m sid message now) sid message now rest
              (send-sent m sid message now s (take_last m.history_limit all) e h)
            ∙ done,
        rw (← append_assoc all (message ∷ []) (map (λ e. e.0) rest)) history,
        λ k n.
            others k n
            ∙ rw (get-adjust m.histories sid k (λ ms. push_bounded m.history_limit ms message), n),
      )

  -- In a valid manager, any messages to a session that is there are accepted. Of the messages old and
  -- new, in order, a read with a positive limit up to the history limit returns the last ones up to
  -- that limit; the histories of the other sessions stay.
  pub history-send_all :
      (m : SessionManager D) (sid : String) (messages : List (SessionMessage D × ℕ)) (s : Session D)
      (old : List (SessionMessage D)) (limit : ℕ)
      → IsValid m
      → get m.sessions sid ≡ some s
      → get m.histories sid ≡ some old
      → 0 < limit
      → limit ≤ m.history_limit
      → (m' : SessionManager D) × (send_all m sid messages ≡ some m')
        × (history m' sid (pos limit) ≡ take_last limit (old ++ map (λ e. e.0) messages))
        × ((k : String) → (sid == k) ≡ false → get m'.histories k ≡ get m.histories k)
  unfolding history
  history-send_all m sid messages s old limit v e h low high =
      let (m', done, kept, others) =
        send_all_from m sid messages s old e
          (rw (take_last_of_le m.history_limit old (v.short sid old h)) h) in
      (
        m',
        done,
        history-some m' sid (pos limit) (take_last m.history_limit (old ++ map (λ e. e.0) messages))
              kept
            ∙ slice_from-pos limit (take_last m.history_limit (old ++ map (λ e. e.0) messages)) low
            ∙ take_last-take_last limit m.history_limit (old ++ map (λ e. e.0) messages) high,
        others,
      )
