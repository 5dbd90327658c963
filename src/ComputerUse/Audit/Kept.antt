-- ===== src/ComputerUse/Audit/Kept.antt =====
-- computer_use/config.py, the calls of `AuditLogger`, and what a flush keeps.
use plugin_baselithbot.Lists.{length, All, All-append}
use plugin_baselithbot.Common.{
  ℕ, zero, suc, String, ◌≡◌, true, false, List, [], ◌∷◌, ◌++◌, ◌-◌, ◌≤◌, ◌<◌, refl, sym, ◌∙◌, ◌⊎◌,
  inl, inr, Bool, ◌||◌, ◌&&◌, arith, leb, ap, subst,
}
use plugin_baselithbot.Security.Redaction.{Fields, dict, max_depth}
use plugin_baselithbot.ComputerUse.Audit.{
  Entry, Writing, goes_through, breaks_off, first_lines, AuditLogger, flush, entry_of,
  record_writing,
}
use plugin_baselithbot.Security.Redaction.Clean.{IsRedacted, redact_payload-IsRedacted}
use mathlib.Core.List.{append-nil, append_assoc}

pub data Call : Type 0 where
  records : Writing → String → Fields → ℕ → Call
  flushes : Writing → ℕ → Call

unfoldable pub step : AuditLogger → Call → AuditLogger
unfolding record_writing flush
step a (records w action fields now) = (record_writing w a action fields now).0
step a (flushes w now) = (flush w a now).0

unfoldable pub run : AuditLogger → List Call → AuditLogger
unfolding step
run a [] = a
run a (c ∷ cs) = run (step a c) cs

-- The entries of the calls, in order.
unfoldable pub entries : List Call → List Entry
entries [] = []
entries (records w action fields now ∷ cs) = entry_of action fields now ∷ entries cs
entries (flushes w now ∷ cs) = entries cs

abbrev pub is_whole : Writing → Bool
is_whole goes_through = true
is_whole (breaks_off n) = false

abbrev pub writing_of : Call → Writing
writing_of (records w action fields now) = w
writing_of (flushes w now) = w

-- Whether no write would break off.
unfoldable pub all_whole : List Call → Bool
all_whole [] = true
all_whole (c ∷ cs) = is_whole (writing_of c) && all_whole cs

-- The entry stands in the file.
abbrev pub Holds : List Entry → Entry → Type 0
Holds file e = (before : List Entry) × (after : List Entry) × (file ≡ before ++ e ∷ after)

abbrev pub IsSafe : Entry → Type 0
IsSafe e = IsRedacted max_depth e.fields

pub Holds-append : (file more : List Entry) (e : Entry) → Holds file e → Holds (file ++ more) e
Holds-append file more e (before, after, same) =
    (before, after ++ more, ap (λ f. f ++ more) same ∙ append_assoc before (e ∷ after) more)

pub All-Holds-append :
    (file more es : List Entry) → All (Holds file) es → All (Holds (file ++ more)) es
All-Holds-append file more [] h = tt
All-Holds-append file more (e ∷ es) h =
    (Holds-append file more e h.0, All-Holds-append file more es h.1)

pub appended-Holds : (file es : List Entry) → All (Holds (file ++ es)) es
appended-Holds file [] = tt
appended-Holds file (e ∷ es) = (
  (file, es, refl),
  subst (λ f. All (Holds f) es) (append_assoc file (e ∷ []) es)
      (appended-Holds (file ++ e ∷ []) es),
)

pub All-right : (xs ys : List Entry) → All IsSafe (xs ++ ys) → All IsSafe ys
All-right [] ys h = h
All-right (x ∷ xs) ys h = All-right xs ys h.1

pub All-first_lines : (n : ℕ) (es : List Entry) → All IsSafe es → All IsSafe (first_lines n es)
All-first_lines n [] h = tt
All-first_lines zero (e ∷ es) h = tt
All-first_lines (suc n) (e ∷ es) h = (h.0, All-first_lines n es h.1)

-- The logger after the calls of the entries `es`, opened on the file `old`. `flushed` are those that have
-- left the buffer, and `new` what was appended. If `whole`, no write broke off.
pub record Kept (size : ℕ) (old es : List Entry) (whole : Bool) (a : AuditLogger) : Type 0 where
  pub has_path : a.has_path ≡ true
  pub batch_size : a.batch_size ≡ size
  pub flushed : List Entry
  pub new : List Entry
  pub none_lost : es ≡ flushed ++ a.buffer
  pub in_file : All (Holds a.file) flushed
  pub appended : a.file ≡ old ++ new
  pub safe : All IsSafe new
  pub exact : (whole ≡ false) ⊎ (new ≡ flushed)

-- Fewer entries than a batch wait, if no write broke off.
abbrev pub Few : ℕ → Bool → AuditLogger → Type 0
Few size whole a = (whole ≡ false) ⊎ (length a.buffer < size)

-- The invariant.
abbrev pub IsLog : ℕ → List Entry → AuditLogger → List Entry → Bool → Type 0
IsLog size old a es whole = Kept size old es whole a × Few size whole a

-- The entries of the buffer that a flush appends, and those that it leaves.
abbrev pub taken : Writing → List Entry → List Entry
taken goes_through es = es
taken (breaks_off n) es = first_lines n es

abbrev pub left : Writing → List Entry → List Entry
left goes_through es = []
left (breaks_off n) es = es

pub flush-parts :
    (w : Writing) (a : AuditLogger) (now : ℕ) (b : List Entry)
    → a.has_path ≡ true
    → a.buffer ≡ b
    → let a' = (flush w a now).0 in
      (a'.file ≡ a.file ++ taken w b)
      × (a'.buffer ≡ left w b)
      × (a'.has_path ≡ true)
      × (a'.batch_size ≡ a.batch_size)
unfolding flush
flush-parts goes_through a now [] h e = rw e (sym (append-nil a.file), refl, h, refl)
flush-parts (breaks_off n) a now [] h e = rw e (sym (append-nil a.file), refl, h, refl)
flush-parts goes_through a now (x ∷ b) h e = rw (e, h) (refl, refl, refl, refl)
flush-parts (breaks_off n) a now (x ∷ b) h e = rw (e, h) (refl, refl, refl, refl)

pub flush-Few :
    {size : ℕ} (w : Writing) (a : AuditLogger) (now : ℕ) (whole : Bool)
    → a.has_path ≡ true
    → 1 ≤ size
    → Few size (whole && is_whole w) (flush w a now).0
flush-Few goes_through a now whole h positive =
    let (file, buffer, path, batch) = flush-parts goes_through a now a.buffer h refl in
    inr (rw buffer (omega arith))
flush-Few (breaks_off n) a now whole h positive = inl (ground arith)

-- An entry in the buffer, before the flush.
abbrev pub waiting : AuditLogger → Entry → AuditLogger
waiting a e = record a { buffer = a.buffer ++ e ∷ [] }

abbrev pub due : AuditLogger → ℕ → Bool
due a now = leb a.batch_size (length a.buffer) || leb a.flush_interval (now - a.last_flush)

-- What a record does that is due for a flush, and one that is not.
pub record_due :
    (w : Writing) (a : AuditLogger) (action : String) (fields : Fields) (now : ℕ)
    → a.has_path ≡ true
    → due (waiting a (entry_of action fields now)) now ≡ true
    → (record_writing w a action fields now).0
      ≡ (flush w (waiting a (entry_of action fields now)) now).0
unfolding record_writing
record_due w a action fields now h d = rw h (rw d refl)

pub record_early :
    (w : Writing) (a : AuditLogger) (action : String) (fields : Fields) (now : ℕ)
    → a.has_path ≡ true
    → due (waiting a (entry_of action fields now)) now ≡ false
    → (record_writing w a action fields now).0 ≡ waiting a (entry_of action fields now)
unfolding record_writing
record_early w a action fields now h d = rw h (rw d refl)

pub entries-cons : (c : Call) (cs : List Call) → entries (c ∷ cs) ≡ entries (c ∷ []) ++ entries cs
unfolding entries
entries-cons (records w action fields now) cs = refl
entries-cons (flushes w now) cs = refl

pub entries-AreSafe : (cs : List Call) → All IsSafe (entries cs)
unfolding entries
entries-AreSafe [] = tt
entries-AreSafe (records w action fields now ∷ cs) =
    (redact_payload-IsRedacted max_depth (dict fields), entries-AreSafe cs)
entries-AreSafe (flushes w now ∷ cs) = entries-AreSafe cs

pub and_true : (b : Bool) → (b && true) ≡ b
and_true b = ground arith

pub and_assoc : (a b c : Bool) → ((a && b) && c) ≡ (a && (b && c))
and_assoc a b c = ground arith

module _ {size : ℕ} {old : List Entry} where
  pub flush-Kept :
      (w : Writing) (a : AuditLogger) (now : ℕ) (es : List Entry) (whole : Bool)
      → All IsSafe es
      → Kept size old es whole a
      → Kept size old es (whole && is_whole w) (flush w a now).0
  flush-Kept goes_through a now es whole safe k =
      let (file, buffer, path, batch) = flush-parts goes_through a now a.buffer k.has_path refl in
      record {
        has_path = path;
        batch_size = batch ∙ k.batch_size;
        flushed = k.flushed ++ a.buffer;
        new = k.new ++ a.buffer;
        none_lost = rw buffer (k.none_lost ∙ sym (append-nil (k.flushed ++ a.buffer)));
        in_file =
            subst (λ f. All (Holds f) (k.flushed ++ a.buffer)) (sym file)
              (All-append (Holds (a.file ++ a.buffer)) k.flushed a.buffer
                (All-Holds-append a.file a.buffer k.flushed k.in_file)
                (appended-Holds a.file a.buffer));
        appended = file ∙ ap (λ f. f ++ a.buffer) k.appended ∙ append_assoc old k.new a.buffer;
        safe =
            All-append IsSafe k.new a.buffer k.safe
              (All-right k.flushed a.buffer (subst (All IsSafe) k.none_lost safe));
        exact = elim k.exact [
          | inl e ↦ inl (ground arith)
          | inr e ↦ inr (ap (λ f. f ++ a.buffer) e)
        ];
      }
  flush-Kept (breaks_off n) a now es whole safe k =
      let (file, buffer, path, batch) = flush-parts (breaks_off n) a now a.buffer k.has_path refl in
      let part = first_lines n a.buffer in
      record {
        has_path = path;
        batch_size = batch ∙ k.batch_size;
        flushed = k.flushed;
        new = k.new ++ part;
        none_lost = rw buffer k.none_lost;
        in_file =
            subst (λ f. All (Holds f) k.flushed) (sym file)
              (All-Holds-append a.file part k.flushed k.in_file);
        appended = file ∙ ap (λ f. f ++ part) k.appended ∙ append_assoc old k.new part;
        safe = All-append IsSafe k.new part k.safe (
            All-first_lines n a.buffer
              (All-right k.flushed a.buffer (subst (All IsSafe) k.none_lost safe)));
        exact = inl (ground arith);
      }

  pub waiting-Kept :
      (a : AuditLogger) (e : Entry) (es : List Entry) (whole : Bool)
      → Kept size old es whole a
      → Kept size old (es ++ e ∷ []) whole (waiting a e)
  waiting-Kept a e es whole k = record {
    has_path = k.has_path;
    batch_size = k.batch_size;
    flushed = k.flushed;
    new = k.new;
    none_lost = ap (λ xs. xs ++ e ∷ []) k.none_lost ∙ append_assoc k.flushed a.buffer (e ∷ []);
    in_file = k.in_file;
    appended = k.appended;
    safe = k.safe;
    exact = k.exact;
  }
