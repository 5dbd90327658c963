-- ===== src/Sessions.antt =====
-- sessions/manager.py: the in-memory sessions, each with a bounded history. `D` is what the source
-- leaves open, the values of `metadata` and `sandbox`.
pub mod Invariant
pub mod History
pub mod Pruning
use plugin_baselithbot.Common.{
  ℕ, ◌-◌, String, Bool, not, ◌&&◌, Option, none, some, List, [], ◌∷◌, ltb, if◌then◌else◌, is_some,
}
use plugin_baselithbot.Lists.{length, push_bounded}
use plugin_baselithbot.Slices.{ℤ, neg, slice_from}
use plugin_baselithbot.Dict.{
  Dict, get, put, remove, adjust, retain, values, keys, pop_first, remove_all,
}

pub record SessionMessage (D : Type 0) : Type 0 where
  pub role : String
  pub content : String
  pub ts : ℕ
  pub metadata : D

pub record Session (D : Type 0) : Type 0 where
  pub id : String
  pub title : String
  pub created_at : ℕ
  pub last_active : ℕ
  pub primary : Bool
  pub sandbox : Option D

pub record SessionManager (D : Type 0) : Type 0 where
  pub sessions : Dict (Session D)
  pub histories : Dict (List (SessionMessage D))
  pub history_limit : ℕ
  pub max_sessions : ℕ

-- A call on the manager. The uuid of a new session and the clock are part of the call.
pub data Call (D : Type 0) : Type 0 where
  creates : String → String → Bool → ℕ → Call D
  sends : String → SessionMessage D → ℕ → Call D
  resets deletes : String → Call D
  prunes : ℕ → ℕ → Call D

module _ {D : Type 0} where
  abbrev pub init : ℕ → ℕ → SessionManager D
  init history_limit max_sessions = record {
    sessions = [];
    histories = [];
    history_limit = history_limit;
    max_sessions = max_sessions;
  }

  abbrev pub new_session : String → String → Bool → ℕ → Session D
  new_session sid title primary now = record {
    id = sid;
    title = title;
    created_at = now;
    last_active = now;
    primary = primary;
    sandbox = none;
  }

  -- What `create` does when there are too many sessions: the oldest goes, with its history.
  unfoldable pub evict_oldest : SessionManager D → SessionManager D
  unfolding pop_first
  evict_oldest m = elim (pop_first m.sessions) [
    | none ↦ m
    | some (oldest, rest) ↦ record m { sessions = rest; histories = remove m.histories oldest }
  ]

  -- `sid` is what `uuid.uuid4().hex[:12]` returns.
  unfoldable pub create :
      SessionManager D → String → String → Bool → ℕ → SessionManager D × Session D
  unfolding evict_oldest
  create m sid title primary now =
      let session = new_session sid title primary now in
      let m' : SessionManager D = record m {
        sessions = put m.sessions sid session;
        histories = put m.histories sid [];
      } in
      (if ltb m.max_sessions (length m'.sessions) then evict_oldest m' else m', session)

  unfoldable pub session_list : SessionManager D → List (Session D)
  session_list m = values m.sessions

  unfoldable pub get_session : SessionManager D → String → Option (Session D)
  get_session m sid = get m.sessions sid

  unfoldable pub history : SessionManager D → String → ℤ → List (SessionMessage D)
  history m sid limit = elim (get m.histories sid) [
    | none ↦ []
    | some messages ↦ slice_from (neg limit) messages
  ]

  -- The message enters the history, and the session was active now.
  abbrev pub sent : SessionManager D → String → SessionMessage D → ℕ → SessionManager D
  sent m sid message now = record m {
    histories = adjust m.histories sid (λ ms. push_bounded m.history_limit ms message);
    sessions = adjust m.sessions sid (λ s. record s { last_active = now });
  }

  -- `none` is the `KeyError` for a session or a history that is not there.
  unfoldable pub send : SessionManager D → String → SessionMessage D → ℕ → Option (SessionManager D)
  send m sid message now =
      if is_some (get m.sessions sid) && is_some (get m.histories sid)
      then some (sent m sid message now)
      else none

  unfoldable pub reset : SessionManager D → String → SessionManager D
  reset m sid =
      if is_some (get m.histories sid)
      then record m { histories = adjust m.histories sid (λ _. []) }
      else m

  unfoldable pub delete : SessionManager D → String → SessionManager D × Bool
  delete m sid = (
    record m { sessions = remove m.sessions sid; histories = remove m.histories sid },
    is_some (get m.sessions sid),
  )

  abbrev pub is_stale : ℕ → String → Session D → Bool
  is_stale cutoff sid s = not s.primary && ltb s.last_active cutoff

  -- The number of sessions that were dropped stands beside the state.
  unfoldable pub prune_inactive : SessionManager D → ℕ → ℕ → SessionManager D × ℕ
  prune_inactive m ttl_seconds now =
      let stale = keys (retain (is_stale (now - ttl_seconds)) m.sessions) in
      (
        record m {
          sessions = remove_all m.sessions stale;
          histories = remove_all m.histories stale;
        },
        length stale,
      )

  -- A call that raises leaves the manager as it was.
  unfoldable pub step : SessionManager D → Call D → SessionManager D
  step m (creates sid title primary now) =
      if is_some (get m.sessions sid) then m else (create m sid title primary now).0
  step m (sends sid message now) = elim (send m sid message now) [ none ↦ m | some m' ↦ m' ]
  step m (resets sid) = reset m sid
  step m (deletes sid) = (delete m sid).0
  step m (prunes ttl_seconds now) = (prune_inactive m ttl_seconds now).0

  unfoldable pub call_all : SessionManager D → List (Call D) → SessionManager D
  call_all m [] = m
  call_all m (c ∷ cs) = call_all (step m c) cs
