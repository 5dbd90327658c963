-- ===== src/Tests/Secrets.antt =====
-- Inputs for the redaction and for the audit log.
use plugin_baselithbot.Slices.{pos}
use plugin_baselithbot.Text.{is_space, lower, lower_starts_with}
use plugin_baselithbot.Lists.{length, All}
use plugin_baselithbot.Common.{
  ◌<◌, max, String, ◌≡◌, ◌⊎◌, refl, true, false, List, [], ◌∷◌, ◌++◌, arith,
}
use plugin_baselithbot.Strings.{joined, first_chars}
use plugin_baselithbot.Security.Redaction.{
  Payload, nothing, number, text, list, dict, nil, cons, end, field, lower_has, any_pattern,
  is_sensitive_key, token_follows, bearer_at, sub_bearer, masked, sub_long_token, redact_string,
  redact_payload, redact_items, redact_fields, max_depth,
}
use plugin_baselithbot.Security.Redaction.Clean.{longest, IsRedacted, redact_payload-IsRedacted}
use plugin_baselithbot.Security.Redaction.Harmless.{
  bears_nothing, IsHarmless, FieldsHarmless, redact_payload_id,
}
use plugin_baselithbot.ComputerUse.Audit.{
  Entry, goes_through, breaks_off, init, flush, record_writing,
}
use plugin_baselithbot.ComputerUse.Audit.Complete.{run-entries}
use plugin_baselithbot.ComputerUse.Audit.Kept.{
  Call, records, flushes, step, run, entries, all_whole, Holds, IsSafe,
}

abbrev long_key : String
long_key = "sk-0123456789abcdef0123456789abcdef"

abbrev login : Payload
login = dict (
    field "user" (text "ann") (
      field "API_Key" (text long_key) (
        field "note" (text "use bearer abc.def now, or sk-0123456789abcdef0123456789abcdef!")
          (field "tags" (list (cons (number (pos 3)) (cons nothing nil))) end))))

login_redacted :
    redact_payload max_depth login
    ≡ dict (
        field "user" (text "ann") (
          field "API_Key" (text "<redacted>") (
            field "note"
              (text "use bearer <redacted> now, or <redacted:sk-0…>!")
              (field "tags" (list (cons (number (pos 3)) (cons nothing nil))) end))))
unfolding redact_payload redact_fields redact_items is_sensitive_key redact_string sub_bearer
    sub_long_token masked bearer_at token_follows any_pattern lower_has lower_starts_with lower
    joined first_chars is_space
login_redacted = refl

abbrev harmless : Payload
harmless = dict (field "user" (text "ann") (field "n" (number (pos 3)) end))

redact_payload-IsRedacted_example : IsRedacted max_depth (redact_payload max_depth login)
redact_payload-IsRedacted_example = redact_payload-IsRedacted max_depth login

redact_payload_id_example : redact_payload max_depth harmless ≡ harmless
unfolding IsHarmless FieldsHarmless bears_nothing longest is_sensitive_key any_pattern lower_has
    lower_starts_with lower bearer_at token_follows is_space
redact_payload_id_example =
    redact_payload_id max_depth harmless ((refl, (refl, omega arith), (refl, tt, tt)))

abbrev two_records : List Call
two_records =
    records goes_through "fs_read" (field "path" (text "/srv/a") end) 10
    ∷ flushes (breaks_off 0) 20
    ∷ flushes goes_through 25
    ∷ records goes_through "fs_write" (field "token" (text "x") end) 30
    ∷ []

two_records_lengths :
    let a = run (init true [] 4 5000 0) two_records in (length a.file ≡ 1) × (length a.buffer ≡ 1)
unfolding run step init record_writing flush
two_records_lengths = (refl, refl)

run-entries_example :
    let a = run (init true [] 4 5000 0) two_records in
    (flushed : List Entry) × (new : List Entry) × (entries two_records ≡ flushed ++ a.buffer)
    × All (Holds a.file) flushed
    × (a.file ≡ new)
    × All IsSafe new
    × ((all_whole two_records ≡ false) ⊎ ((new ≡ flushed) × (length a.buffer < max 1 4)))
run-entries_example = run-entries [] 4 5000 0 two_records
