-- ===== src/Chat/Commands/Effects.antt =====
-- chat/commands.py: what a line changes, for each answer.
use Prim.Native.Char.{Char, code}
use plugin_baselithbot.Text.{strip}
use plugin_baselithbot.Chat.Commands.{
  supported_commands, split_words, CommandHandler, ChatCommandRouter, Response, ignored,
  empty_command, unknown, handled, status, acknowledged, run_command, handle_tokens, handle,
}
use plugin_baselithbot.Dict.{get, adjust}
use plugin_baselithbot.Lists.{contains}
use plugin_baselithbot.Common.{
  ℕ, suc, ◌-◌, String, ◌≡◌, refl, ap, inl, inr, true, false, none, some, List, [], ◌∷◌, ◌==◌,
  eq_iff, Bool-cases, Option-cases, subst, eqb,
}

module _ {S C R : Type 0} (r : ChatCommandRouter S C R) (ctx : C) (now : ℕ) (s : S) where
  abbrev pub IsUnchanged : ChatCommandRouter S C R → S → Type 0
  IsUnchanged r' s' = (r' ≡ r) × (s' ≡ s)

  -- The command is supported, and it is counted.
  abbrev pub IsCounted : ChatCommandRouter S C R → String → Type 0
  IsCounted r' name =
      (contains name supported_commands ≡ true)
      × (r' ≡ record r { stats = adjust r.stats name suc })

  -- The words of the line, and what came of them.
  abbrev pub Effect : List String → (ChatCommandRouter S C R × S) × Response R → Type 0
  Effect words ((r', s'), ignored) = ⊥
  Effect words ((r', s'), empty_command) = (words ≡ []) × IsUnchanged r' s'
  Effect words ((r', s'), unknown name) =
      (args : List String) × (words ≡ name ∷ args)
      × (contains name supported_commands ≡ false)
      × IsUnchanged r' s'
  Effect words ((r', s'), handled result) =
      (name : String) × (args : List String) × (handler : CommandHandler S C R) × (words
        ≡ name ∷ args)
      × (get r.handlers name ≡ some handler)
      × IsCounted r' name
      × (handler args ctx s ≡ (s', result))
  Effect words ((r', s'), status uptime stats) =
      (args : List String) × (words ≡ "status" ∷ args)
      × (get r.handlers "status" ≡ none)
      × (uptime ≡ now - r.started_at)
      × (stats ≡ r'.stats)
      × IsCounted r' "status"
      × (s' ≡ s)
  Effect words ((r', s'), acknowledged name args) =
      (words ≡ name ∷ args)
      × (name == "status" ≡ false)
      × (get r.handlers name ≡ none)
      × IsCounted r' name
      × (s' ≡ s)

  run_command-Effect :
      (name : String) (args : List String)
      → contains name supported_commands ≡ true
      → Effect (name ∷ args) (run_command r name args ctx now s)
  unfolding run_command
  run_command-Effect name args h = elim (Option-cases (get r.handlers name)) [
    | inr (handler, e) ↦ rw (e, run_command) (name, args, handler, refl, e, (h, refl), refl)
    | inl e ↦ elim (Bool-cases (name == "status")) [
      | inl t ↦
          let same : name ≡ "status" = (eq_iff name "status").0 t in
          rw (e, run_command)
            (rw t (
              args,
              ap (λ n. n ∷ args) same,
              subst (λ n. get r.handlers n ≡ none) same e,
              refl,
              refl,
              (
                subst (λ n. contains n supported_commands ≡ true) same h,
                ap (λ n. record r { stats = adjust r.stats n suc }) same,
              ),
              refl,
            ))
      | inr f ↦ rw (e, run_command) (rw f (refl, f, e, (h, refl), refl))
    ]
  ]

  handle_tokens-Effect : (words : List String) → Effect words (handle_tokens r words ctx now s)
  unfolding handle_tokens
  handle_tokens-Effect [] = (refl, (refl, refl))
  handle_tokens-Effect (name ∷ args) = elim (Bool-cases (contains name supported_commands)) [
    | inl h ↦ rw h (run_command-Effect name args h)
    | inr h ↦ rw h (args, refl, h, (refl, refl))
  ]

  -- A line with a slash is never ignored. The answer of an empty command comes of a line without words,
  -- that of an unknown one names the first word, which is not supported, and neither changes anything.
  -- Any other answer comes of a first word that is supported and counted once: it is that of its
  -- handler on the other words and the state, or, with no handler registered, the uptime and the new
  -- counters for the word "status" and for any other an acknowledgement of the words, and without a
  -- handler the state of the program stays.
  pub handle-Effect :
      (c : Char) (line : String)
      → eqb (code c) b'/' ≡ true
      → Effect (split_words (strip line)) (handle r (String.◌∷◌ c line) ctx now s)
  unfolding handle
  handle-Effect c line h = rw h (handle_tokens-Effect (split_words (strip line)))
