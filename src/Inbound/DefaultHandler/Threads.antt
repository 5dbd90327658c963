-- ===== src/Inbound/DefaultHandler/Threads.antt =====
-- inbound/default_handler.py: the events of a sender go to one session.
use plugin_baselithbot.Slices.{pos, slice_from}
use plugin_baselithbot.Sessions.Invariant.{IsValid, sent-IsValid, create-IsValid}
use plugin_baselithbot.Inbound.Dispatcher.{InboundEvent, returns}
use plugin_baselithbot.Lists.{length, drop, take_last-push_bounded, push_bounded}
use plugin_baselithbot.Dict.Keys.{IsDistinct}
use plugin_baselithbot.Dict.{Dict, get, put, adjust, values, pop_first, get-adjust}
use plugin_baselithbot.Sessions.{
  Session, SessionManager, new_session, evict_oldest, create, session_list, SessionMessage, history,
  sent, send,
}
use plugin_baselithbot.Inbound.DefaultHandler.{
  Metadata, find_title, title_of, session_for, Hub, message_of, handle_at, handle,
}
use plugin_baselithbot.Common.{
  ℕ, String, ◌≡◌, refl, true, none, some, [], ◌∷◌, arith, eq_iff, eq_refl, is_some, ◌≤◌, ◌<◌, ap,
  ◌∙◌, inl, inr, false, ltb, ltb→lt, Bool-cases, Option-cases, List, sym, subst,
}

-- Every entry is under the id of its session.
abbrev AllNamed : {D : Type 0} → Dict (Session (Metadata D)) → Type 0
AllNamed d = (k : String) (s : Session _) → get d k ≡ some s → s.id ≡ k

-- A valid manager in which the title leads to the id.
abbrev pub HasThread : {D : Type 0} → SessionManager (Metadata D) → String → String → Type 0
HasThread m title id = IsValid m × (find_title (values m.sessions) title ≡ some id)

module _ {D : Type 0} where
  tail-named :
      (j : String) (w : Session (Metadata D)) (d : Dict (Session (Metadata D)))
      → IsDistinct ((j, w) ∷ d)
      → AllNamed ((j, w) ∷ d)
      → AllNamed d
  unfolding get
  tail-named j w d h n k s e = ground (arith, n k s, h.0, eq_iff j k)

  get-find_title :
      (d : Dict (Session (Metadata D))) (title id : String)
      → IsDistinct d
      → AllNamed d
      → find_title (values d) title ≡ some id
      → is_some (get d id) ≡ true
  unfolding find_title values get
  get-find_title [] title id h n e = cc
  get-find_title ((j, w) ∷ d) title id h n e =
      let named : w.id ≡ j = n j w (rw (eq_refl j)) in
      ground (arith, get-find_title d title id h.1 (tail-named j w d h n), eq_iff j id, named)

  find_title-put :
      (d : Dict (Session (Metadata D))) (sid title : String) (s : Session (Metadata D))
      → get d sid ≡ none
      → find_title (values d) title ≡ none
      → s.title ≡ title
      → find_title (values (put d sid s)) title ≡ some s.id
  unfolding find_title values put get
  find_title-put [] sid title s e f t = ground (arith, eq_iff s.title title)
  find_title-put ((j, w) ∷ d) sid title s e f t = ground (arith, find_title-put d sid title s)

  find_title-adjust :
      (d : Dict (Session (Metadata D))) (k title : String) (now : ℕ)
      → find_title (values (adjust d k (λ s. record s { last_active = now }))) title
        ≡ find_title (values d) title
  unfolding find_title values adjust
  find_title-adjust [] k title now = refl
  find_title-adjust ((j, w) ∷ d) k title now = ground (arith, find_title-adjust d k title now)

  sessions-evict :
      (xs : Dict (Session (Metadata D))) (m : SessionManager (Metadata D))
      → m.sessions ≡ xs
      → (evict_oldest m).sessions ≡ drop 1 xs
  unfolding evict_oldest pop_first
  sessions-evict [] m e = rw (e, evict_oldest) e
  sessions-evict ((k, s) ∷ xs) m e = rw (e, evict_oldest)

  find_title-drop :
      (d : Dict (Session (Metadata D))) (sid title : String) (s : Session (Metadata D))
      → get d sid ≡ none
      → find_title (values d) title ≡ none
      → s.title ≡ title
      → 1 < length (put d sid s)
      → find_title (values (drop 1 (put d sid s))) title ≡ some s.id
  unfolding find_title values put get
  find_title-drop [] sid title s e f t l = absurd (omega arith)
  find_title-drop ((j, w) ∷ d) sid title s e f t l = ground (arith, find_title-put d sid title s)

  find_title-create :
      (m : SessionManager (Metadata D)) (sid title : String) (now : ℕ)
      → 1 ≤ m.max_sessions
      → get m.sessions sid ≡ none
      → find_title (values m.sessions) title ≡ none
      → find_title (values (create m sid title false now).0.sessions) title ≡ some sid
  unfolding create
  find_title-create m sid title now l e f =
      let s = new_session {D = Metadata D} sid title false now in
      let entered = put m.sessions sid s in
      elim (Bool-cases (ltb m.max_sessions (length entered))) [
        | inl full ↦ rw full (
            ap (λ d. find_title (values d) title) (sessions-evict entered _ refl)
            ∙ find_title-drop m.sessions sid title s e f refl
                (omega (arith, ltb→lt m.max_sessions (length entered) full, l)))
        | inr room ↦ rw room (find_title-put m.sessions sid title s e f refl)
      ]

  limit-create :
      (m : SessionManager (Metadata D)) (sid title : String) (now : ℕ)
      → (create m sid title false now).0.history_limit ≡ m.history_limit
  unfolding create evict_oldest
  limit-create m sid title now = ground arith

  session_for-HasThread :
      (m : SessionManager (Metadata D)) (event : InboundEvent D) (sid : String) (now : ℕ)
      → IsValid m
      → 1 ≤ m.max_sessions
      → get m.sessions sid ≡ none
      → let (m', id) = session_for m event sid now in
        HasThread m' (title_of event.channel event.sender) id × (m'.history_limit ≡ m.history_limit)
  unfolding session_for session_list
  session_for-HasThread m event sid now v l e =
      let title = title_of event.channel event.sender in
      elim (Option-cases (find_title (values m.sessions) title)) [
        | inl f ↦
            rw (f, session_for)
              (
                (create-IsValid m v sid title false now, find_title-create m sid title now l e f),
                limit-create m sid title now,
              )
        | inr (id, f) ↦ rw (f, session_for) ((v, f), refl)
      ]

  last_message :
      (m : SessionManager (Metadata D)) (id : String) (message : SessionMessage (Metadata D))
      (ms : List (SessionMessage (Metadata D))) (now : ℕ)
      → 1 ≤ m.history_limit
      → get m.histories id ≡ some ms
      → history (sent m id message now) id (pos 1) ≡ message ∷ []
  unfolding history slice_from
  last_message m id message ms now l e =
      let g : get (sent m id message now).histories id
          ≡ some (push_bounded m.history_limit ms message) =
        get-adjust m.histories id id (λ xs. push_bounded m.history_limit xs message)
        ∙ rw (eq_refl id) (rw e) in
      rw (g, history) (take_last-push_bounded m.history_limit ms message l)

  send-thread :
      (m : SessionManager (Metadata D)) (title id : String) (message : SessionMessage (Metadata D))
      (now : ℕ)
      → HasThread m title id
      → send m id message now ≡ some (sent m id message now)
  unfolding send
  send-thread m title id message now (v, f) =
      let here = get-find_title m.sessions title id v.distinct v.named f in
      rw (here, send) (rw (v.same_keys id) (rw here))

  thread-last :
      (m : SessionManager (Metadata D)) (title id : String) (message : SessionMessage (Metadata D))
      (now : ℕ)
      → HasThread m title id
      → 1 ≤ m.history_limit
      → history (sent m id message now) id (pos 1) ≡ message ∷ []
  thread-last m title id message now (v, f) l = elim (Option-cases (get m.histories id)) [
    | inl n ↦
        absurd (
          ground
            (arith, n, v.same_keys id, get-find_title m.sessions title id v.distinct v.named f))
    | inr (ms, e) ↦ last_message m id message ms now l e
  ]

  sent-HasThread :
      (m : SessionManager (Metadata D)) (title id : String) (message : SessionMessage (Metadata D))
      (now : ℕ)
      → HasThread m title id
      → HasThread (sent m id message now) title id
  sent-HasThread m title id message now (v, f) =
      (sent-IsValid m v id message now, find_title-adjust m.sessions id title now ∙ f)

  handle_at-routes :
      (hub : Hub D) (event : InboundEvent D) (sid : String) (now : ℕ)
      → IsValid hub.sessions
      → 1 ≤ hub.sessions.max_sessions
      → 1 ≤ hub.sessions.history_limit
      → get hub.sessions.sessions sid ≡ none
      → let (hub', outcome) = handle_at sid now event hub in
        (id : String) × (outcome ≡ returns id)
        × HasThread hub'.sessions (title_of event.channel event.sender) id
        × (history hub'.sessions id (pos 1) ≡ message_of event now ∷ [])
  unfolding handle_at
  handle_at-routes hub event sid now v l h e =
      let (m, id) = session_for hub.sessions event sid now in
      let (thread, limit) = session_for-HasThread hub.sessions event sid now v l e in
      let title = title_of event.channel event.sender in
      let message = message_of event now in
      rw (send-thread m title id message now thread, handle_at)
        (
          id,
          refl,
          sent-HasThread m title id message now thread,
          thread-last m title id message now thread (subst (λ n. 1 ≤ n) (sym limit) h),
        )

  -- In a valid manager that may hold at least one session and one message for each session, with a
  -- uuid that no session has, the handler never fails: it returns the id of a session which has the
  -- event as its last message. The manager is valid afterwards, and in it the title of the channel
  -- and the sender, by which the sender's next event is looked up, leads to that session.
  pub handle-routes :
      (hub : Hub D) (event : InboundEvent D) (sid : String) (now : ℕ) (rest : List (String × ℕ))
      → hub.readings ≡ (sid, now) ∷ rest
      → IsValid hub.sessions
      → 1 ≤ hub.sessions.max_sessions
      → 1 ≤ hub.sessions.history_limit
      → get hub.sessions.sessions sid ≡ none
      → let (hub', outcome) = handle event hub in
        (id : String) × (outcome ≡ returns id)
        × HasThread hub'.sessions (title_of event.channel event.sender) id
        × (history hub'.sessions id (pos 1) ≡ message_of event now ∷ [])
  unfolding handle
  handle-routes hub event sid now rest r v l h e =
      rw (r, handle) (handle_at-routes (record hub { readings = rest }) event sid now v l h e)
