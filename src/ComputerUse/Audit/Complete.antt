-- ===== src/ComputerUse/Audit/Complete.antt =====
-- What the audit log holds after any calls.
use plugin_baselithbot.Lists.{length, All, All-append}
use plugin_baselithbot.Common.{
  ℕ, ◌≡◌, true, false, List, [], ◌∷◌, ◌++◌, ◌≤◌, ◌<◌, refl, sym, ◌∙◌, ◌⊎◌, inl, inr, Bool, ◌&&◌,
  arith, Bool-cases, max, ap, subst,
}
use plugin_baselithbot.Security.Redaction.{dict, max_depth}
use plugin_baselithbot.ComputerUse.Audit.{Entry, Writing, AuditLogger, flush, entry_of, init}
use plugin_baselithbot.Security.Redaction.Clean.{redact_payload-IsRedacted}
use mathlib.Core.List.{append-nil, append_assoc}
use plugin_baselithbot.ComputerUse.Audit.Kept.{
  Kept, Call, records, flushes, step, run, entries, is_whole, writing_of, all_whole, Holds, IsSafe,
  Few, IsLog, flush-Few, waiting, due, record_due, record_early, entries-cons, entries-AreSafe,
  and_true, and_assoc, flush-Kept, waiting-Kept,
}

module _ {size : ℕ} {old : List Entry} where
  weaken :
      (w : Writing) (a : AuditLogger) (es : List Entry) (whole : Bool)
      → Kept size old es whole a
      → Kept size old es (whole && is_whole w) a
  weaken w a es whole k = record {
    has_path = k.has_path;
    batch_size = k.batch_size;
    flushed = k.flushed;
    new = k.new;
    none_lost = k.none_lost;
    in_file = k.in_file;
    appended = k.appended;
    safe = k.safe;
    exact = elim k.exact [ inl e ↦ inl (ground arith) | inr e ↦ inr e ];
  }

  step-Kept :
      (a : AuditLogger) (c : Call) (es : List Entry) (whole : Bool)
      → 1 ≤ size
      → All IsSafe es
      → Kept size old es whole a × Few size whole a
      → Kept size old (es ++ entries (c ∷ [])) (whole && is_whole (writing_of c)) (step a c)
        × Few size (whole && is_whole (writing_of c)) (step a c)
  unfolding step entries
  step-Kept a (flushes w now) es whole positive safe (k, few) =
      let same = flush-Kept w a now es whole safe k in
      (
        subst (λ xs. Kept size old xs (whole && is_whole w) (flush w a now).0) (sym (append-nil es))
            same,
        flush-Few w a now whole k.has_path positive,
      )
  step-Kept a (records w action fields now) es whole positive safe (k, few) =
      let e = entry_of action fields now in
      let a' : AuditLogger = waiting a e in
      let k' = waiting-Kept a e es whole k in
      let safe' : All IsSafe (es ++ e ∷ []) =
        All-append IsSafe es (e ∷ []) safe
          (redact_payload-IsRedacted max_depth (dict fields), tt) in
      elim (Bool-cases (due a' now)) [
        | inl d ↦ rw (record_due w a action fields now k.has_path d) (
          flush-Kept w a' now (es ++ e ∷ []) whole safe' k',
          flush-Few w a' now whole k.has_path positive,
        )
        | inr d ↦
            rw (record_early w a action fields now k.has_path d)
              (weaken w a' (es ++ e ∷ []) whole k', inr (ground (arith, k.batch_size)))
      ]

  run-IsLog :
      (a : AuditLogger) (cs : List Call) (es : List Entry) (whole : Bool)
      → 1 ≤ size
      → All IsSafe es
      → IsLog size old a es whole
      → IsLog size old (run a cs) (es ++ entries cs) (whole && all_whole cs)
  unfolding run entries all_whole
  run-IsLog a [] es whole positive safe k =
      subst (IsLog size old a (es ++ [])) (sym (and_true whole))
        (subst (λ xs. IsLog size old a xs whole) (sym (append-nil es)) k)
  run-IsLog a (c ∷ cs) es whole positive safe k =
      let here = entries (c ∷ []) in
      let w = is_whole (writing_of c) in
      let all_same : (es ++ here) ++ entries cs ≡ es ++ entries (c ∷ cs) =
        append_assoc es here (entries cs) ∙ ap (λ xs. es ++ xs) (sym (entries-cons c cs)) in
      let later =
        run-IsLog (step a c) cs (es ++ here) (whole && w) positive
          (All-append IsSafe es here safe (entries-AreSafe (c ∷ [])))
          (step-Kept a c es whole positive safe k) in
      subst (IsLog size old (run a (c ∷ cs)) (es ++ entries (c ∷ cs)))
        (and_assoc whole w (all_whole cs))
        (subst (λ xs. IsLog size old (run a (c ∷ cs)) xs ((whole && w) && all_whole cs)) all_same
          later)

-- After any calls on a logger that was opened with a path, on a file that holds anything, where any write
-- may break off with an OSError after some lines and none is torn within a line:
-- no record is lost, for the entries of the records in order are those that were flushed, each of which
-- stands in the file, and then the buffer; the file is what it held and then entries that are all
-- redacted; and, unless a write was to break off, these are the flushed ones once each and in order,
-- and fewer entries than a batch wait in the buffer.
pub run-entries :
    (old : List Entry) (batch_size flush_interval now : ℕ) (cs : List Call)
    → let a = run (init true old batch_size flush_interval now) cs in
      (flushed : List Entry) × (new : List Entry) × (entries cs ≡ flushed ++ a.buffer)
      × All (Holds a.file) flushed
      × (a.file ≡ old ++ new)
      × All IsSafe new
      × ((all_whole cs ≡ false) ⊎ ((new ≡ flushed) × (length a.buffer < max 1 batch_size)))
unfolding init
run-entries old batch_size flush_interval now cs =
    let a = init true old batch_size flush_interval now in
    let opened : Kept (max 1 batch_size) old [] true a = record {
      has_path = refl;
      batch_size = refl;
      flushed = [];
      new = [];
      none_lost = refl;
      in_file = tt;
      appended = sym (append-nil old);
      safe = tt;
      exact = inr refl;
    } in
    let (k, few) = run-IsLog a cs [] true (omega arith) tt (opened, inr (omega arith)) in
    (
      k.flushed,
      k.new,
      k.none_lost,
      k.in_file,
      k.appended,
      k.safe,
      elim k.exact [ inl e ↦ inl e | inr e ↦ elim few [ inl f ↦ inl f | inr f ↦ inr (e, f) ] ],
    )
