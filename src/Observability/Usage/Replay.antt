-- ===== src/Observability/Usage/Replay.antt =====
-- observability/usage.py: what the file gives back.
use plugin_baselithbot.Lists.{take_last, push_bounded, push_bounded-take_last, take_last_of_le, All}
use plugin_baselithbot.Observability.Usage.{
  UsageEvent, EventJson, UsageLedger, init, with_total, record_event, parsed, read_lines, replay,
  IsReadable,
}
use mathlib.Core.List.{append_assoc, append-nil}
use plugin_baselithbot.Common.{
  ℕ, ◌≡◌, refl, sym, ap, ◌∙◌, true, false, some, String, Bool, List, [], ◌∷◌, ◌++◌, map, arith,
  Option-cases, inl, inr,
}

-- The events of the calls of `record`, each with its total.
abbrev pub recorded : List (UsageEvent × Bool) → List UsageEvent
recorded calls = map (λ c. with_total c.0) calls

-- Those whose line the file took.
abbrev pub written : List (UsageEvent × Bool) → List UsageEvent
written [] = []
written ((e, true) ∷ calls) = with_total e ∷ written calls
written ((e, false) ∷ calls) = written calls

module _ (json : EventJson) where
  open json use {dump, validate}

  unfoldable pub record_all : UsageLedger → List (UsageEvent × Bool) → UsageLedger
  record_all l [] = l
  record_all l ((e, writes) ∷ calls) = record_all (record_event json l e writes).0 calls

  parsed-dump : (e : UsageEvent) → IsReadable json e → parsed json (dump e) ≡ some e
  unfolding parsed
  parsed-dump e v = rw (v.stripped, parsed) (rw v.filled v.validated)

  read_lines-dumps :
      (es events : List UsageEvent)
      → All (IsReadable json) es
      → read_lines json (map dump es) 0 events ≡ events ++ es
  unfolding read_lines
  read_lines-dumps [] events v = sym (append-nil events)
  read_lines-dumps (e ∷ es) events v =
      rw (parsed-dump e v.0, read_lines)
        (read_lines-dumps es (events ++ e ∷ []) v.1 ∙ append_assoc events (e ∷ []) es)

  -- Without a limit, lines behind others are read behind them.
  read_lines-append :
      (xs ys : List String) (events : List UsageEvent)
      → read_lines json (xs ++ ys) 0 events ≡ read_lines json ys 0 (read_lines json xs 0 events)
  unfolding read_lines
  read_lines-append [] ys events = refl
  read_lines-append (x ∷ xs) ys events = elim (Option-cases (parsed json x)) [
    | inl e ↦ rw (e, read_lines) (read_lines-append xs ys events)
    | inr (event, e) ↦ rw (e, read_lines) (read_lines-append xs ys (events ++ event ∷ []))
  ]

  file-record_all :
      (l : UsageLedger) (calls : List (UsageEvent × Bool)) (lines : List String)
      → l.file ≡ some lines
      → (record_all l calls).file ≡ some (lines ++ map dump (written calls))
  unfolding record_all record_event
  file-record_all l [] lines h = h ∙ ap some (sym (append-nil lines))
  file-record_all l ((e, true) ∷ calls) lines h =
      file-record_all (record_event json l e true).0 calls (lines ++ dump (with_total e) ∷ [])
        (rw h refl)
      ∙ ap some (append_assoc lines (dump (with_total e) ∷ []) (map dump (written calls)))
  file-record_all l ((e, false) ∷ calls) lines h =
      file-record_all (record_event json l e false).0 calls lines (rw h refl)

  record_event-ring :
      (l : UsageLedger) (e : UsageEvent) (writes : Bool)
      → let l' = (record_event json l e writes).0 in
        (l'.ring ≡ push_bounded l.ring_buffer_size l.ring (with_total e))
        × (l'.ring_buffer_size ≡ l.ring_buffer_size)
  unfolding record_event
  record_event-ring l e writes = ground arith

  ring-record_all :
      (l : UsageLedger) (calls : List (UsageEvent × Bool)) (size : ℕ) (before : List UsageEvent)
      → l.ring_buffer_size ≡ size
      → l.ring ≡ take_last size before
      → (record_all l calls).ring ≡ take_last size (before ++ recorded calls)
  unfolding record_all
  ring-record_all l [] size before s h = h ∙ ap (take_last size) (sym (append-nil before))
  ring-record_all l ((e, writes) ∷ calls) size before s h =
      let l' = (record_event json l e writes).0 in
      let (ring, same) = record_event-ring l e writes in
      let next : l'.ring ≡ take_last size (before ++ with_total e ∷ []) =
        ring ∙ rw (s, h) (push_bounded-take_last size before (with_total e)) in
      ring-record_all l' calls size (before ++ with_total e ∷ []) (same ∙ s) next
      ∙ ap (take_last size) (append_assoc before (with_total e ∷ []) (recorded calls))

  -- If each event that was written can be read back from its line, a ledger with a file gives back what
  -- that file held before and then the events that were written, in order and each with its total,
  -- however small the ring is. The ring of a new ledger holds the last of all events that were
  -- recorded, those among them whose line the file refused as well.
  pub replay-record_all :
      (lines : List String) (size : ℕ) (calls : List (UsageEvent × Bool))
      → All (IsReadable json) (written calls)
      → let new = init (some lines) size in
        let l = record_all new calls in
        (replay json l 0 ≡ replay json new 0 ++ written calls)
        × (l.ring ≡ take_last size (recorded calls))
  unfolding replay
  replay-record_all lines size calls v =
      let new = init (some lines) size in
      (
        rw (file-record_all new calls lines refl, replay)
            (read_lines-append lines (map dump (written calls)) []
              ∙ read_lines-dumps (written calls) (read_lines json lines 0 []) v),
        ring-record_all new calls size [] refl (sym (take_last_of_le size [] (omega arith))),
      )
