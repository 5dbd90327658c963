-- ===== src/Tests/Stores.antt =====
-- Inputs for the sessions and the tracker of runs.
use plugin_baselithbot.Common.{
  ℕ, String, ◌≡◌, refl, true, false, none, some, [], ◌∷◌, ◌++◌, arith, ◌==◌, eq_iff,
}
use plugin_baselithbot.Lists.{take_last}
use plugin_baselithbot.Slices.{pos}
use plugin_baselithbot.Dict.{get}
use plugin_baselithbot.Sessions
use plugin_baselithbot.Sessions.{
  SessionManager, SessionMessage, Session, new_session, creates, sends, deletes, prunes, history,
  is_stale, prune_inactive, call_all, init,
}
use plugin_baselithbot.Sessions.Invariant
use plugin_baselithbot.Sessions.Invariant.{call_all-IsValid, IsValid}
use plugin_baselithbot.Sessions.History.{send_all, history-send_all}
use plugin_baselithbot.Control.RunTracker
use plugin_baselithbot.Control.RunTracker.{
  RunTaskTracker, RunTaskState, new_state, start, step, finish, update, latest, recent, running,
  completed, failed, progressed, finished, Progress, Outcome,
}
use plugin_baselithbot.Control.RunTracker.Recency
use plugin_baselithbot.Control.RunTracker.Recency.{
  touch, start-touch, starts, finishes, perform_all,
}
use plugin_baselithbot.Control.RunTracker.Bounds.{perform_all-IsValid}

abbrev hello : SessionMessage ℕ
hello = record { role = "user"; content = "hello"; ts = 5; metadata = 0 }

abbrev bye : SessionMessage ℕ
bye = record { role = "user"; content = "bye"; ts = 6; metadata = 0 }

abbrev manager : SessionManager ℕ
manager = record {
  sessions = ("s1", new_session "s1" "main" true 0) ∷ ("s2", new_session "s2" "side" false 0) ∷ [];
  histories = ("s1", hello ∷ []) ∷ ("s2", []) ∷ [];
  history_limit = 2;
  max_sessions = 3;
}

manager-IsValid : Invariant.IsValid manager
unfolding get
manager-IsValid = record {
  distinct = (refl, (refl, tt));
  bounded = omega arith;
  same_keys = λ k. ground arith;
  short = λ k ms e. ground arith;
  named = λ k s e. ground (arith, eq_iff "s1" k, eq_iff "s2" k);
}

call_all-IsValid_example : Invariant.IsValid (
    call_all
      (Sessions.init {D = ℕ} 2 1)
      (creates "s1" "main" true 0 ∷ creates "s2" "side" false 1 ∷ sends "s2" hello 5 ∷ []))
call_all-IsValid_example =
    call_all-IsValid 2 1
      (creates "s1" "main" true 0 ∷ creates "s2" "side" false 1 ∷ sends "s2" hello 5 ∷ [])

history-send_all_example :
    (m' : SessionManager ℕ) × (send_all manager "s1" ((bye, 6) ∷ (hello, 7) ∷ []) ≡ some m')
    × (history m' "s1" (pos 2) ≡ take_last 2 ((hello ∷ []) ++ bye ∷ hello ∷ []))
    × ((k : String) → ("s1" == k) ≡ false → get m'.histories k ≡ get manager.histories k)
unfolding get
history-send_all_example =
    history-send_all manager "s1" ((bye, 6) ∷ (hello, 7) ∷ []) (new_session "s1" "main" true 0)
      (hello ∷ []) 2 manager-IsValid refl refl (omega arith) (omega arith)

abbrev tracker : RunTaskTracker ℕ
tracker = record {
  max_runs = 2;
  runs = ("a", new_state "a" "go" none 5 [] 0) ∷ ("b", new_state "b" "stop" none 5 [] 1) ∷ [];
}

tracker-IsValid : Recency.IsValid tracker
unfolding get
tracker-IsValid = record { distinct = (refl, (refl, tt)); bounded = omega arith }

abbrev half_way : Progress ℕ
half_way = record {
  steps_taken = 2;
  current_url = "u";
  action = "click";
  reasoning = "r";
  history = "h" ∷ [];
  extracted_data = 1;
  last_screenshot_b64 = none;
}

abbrev success : Outcome ℕ
success = record {
  success = true;
  final_url = "v";
  steps_taken = 3;
  extracted_data = 2;
  history = "h" ∷ [];
  error = none;
  last_screenshot_b64 = none;
}

perform_all-IsValid_example : Recency.IsValid (
    perform_all
      (RunTracker.init {D = ℕ} 1)
      (starts "a" "go" none 5 [] 0 ∷ starts "b" "stop" none 5 [] 1 ∷ finishes "b" success 2 ∷ []))
perform_all-IsValid_example =
    perform_all-IsValid 1
      (starts "a" "go" none 5 [] 0 ∷ starts "b" "stop" none 5 [] 1 ∷ finishes "b" success 2 ∷ [])
