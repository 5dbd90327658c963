-- ===== src/Chat/Commands.antt =====
-- chat/commands.py: the router of slash commands. `S` is the state of the program that a handler
-- changes, `C` its context, `R` what handlers return. The one await of `handle`, of the handler, is its
-- last step: what other calls do to the router in between is not part of the router that it gives.
pub mod Effects
use plugin_baselithbot.Text.{is_space, is_empty, strip}
use plugin_baselithbot.Dict.{Dict, get, put, adjust}
use plugin_baselithbot.Lists.{contains}
use plugin_baselithbot.Common.{
  ℕ, suc, ◌-◌, String, Option, none, some, List, [], ◌∷◌, ◌==◌, eqb, if◌then◌else◌,
}
use Prim.Native.Char.{code}

-- SUPPORTED_COMMANDS
abbrev pub supported_commands : List String
supported_commands =
    "status" ∷ "new" ∷ "reset" ∷ "compact" ∷ "think" ∷ "verbose" ∷ "trace" ∷ "usage" ∷ "restart"
    ∷ "activation" ∷ []

-- The first word of a text and the others, where a word may be empty.
unfoldable pub words_from : String → String × List String
unfolding is_space
words_from String.[] = ("", [])
words_from (String.◌∷◌ c s) =
    let (word, rest) = words_from s in
    if is_space (code c)
    then ("", if is_empty word then rest else word ∷ rest)
    else (String.◌∷◌ c word, rest)

-- text.split()
unfoldable pub split_words : String → List String
unfolding words_from
split_words s = let (word, rest) = words_from s in if is_empty word then rest else word ∷ rest

abbrev pub CommandHandler : Type 0 → Type 0 → Type 0 → Type 0
CommandHandler S C R = List String → C → S → S × R

pub record ChatCommandRouter (S C R : Type 0) : Type 0 where
  pub handlers : Dict (CommandHandler S C R)
  pub stats : Dict ℕ
  pub started_at : ℕ

-- What `handle` answers; the response of a status is the uptime and the counters.
pub data Response (R : Type 0) : Type 0 where
  ignored empty_command : Response R
  unknown : String → Response R
  handled : R → Response R
  status : ℕ → Dict ℕ → Response R
  acknowledged : String → List String → Response R

abbrev zeros : List String → Dict ℕ
zeros [] = []
zeros (name ∷ names) = (name, 0) ∷ zeros names

module _ {S C R : Type 0} where
  abbrev pub init : ℕ → ChatCommandRouter S C R
  init now = record { handlers = []; stats = zeros supported_commands; started_at = now }

  -- `none` is the `KeyError` of a command that is not supported.
  unfoldable pub register :
      ChatCommandRouter S C R → String → CommandHandler S C R → Option (ChatCommandRouter S C R)
  register r name handler =
      if contains name supported_commands
      then some (record r { handlers = put r.handlers name handler })
      else none

  -- A command that is supported: it is counted, and its handler or the default answers.
  unfoldable pub run_command :
      ChatCommandRouter S C R
      → String
      → List String
      → C
      → ℕ
      → S
      → (ChatCommandRouter S C R × S) × Response R
  run_command r name args ctx now s =
      let r' : ChatCommandRouter S C R = record r { stats = adjust r.stats name suc } in
      elim (get r.handlers name) [
        | some handler ↦ let (s', result) = handler args ctx s in ((r', s'), handled result)
        | none ↦ (
          (r', s),
          if name == "status" then status (now - r.started_at) r'.stats else acknowledged name args,
        )
      ]

  unfoldable pub handle_tokens :
      ChatCommandRouter S C R → List String → C → ℕ → S → (ChatCommandRouter S C R × S) × Response R
  unfolding run_command
  handle_tokens r [] ctx now s = ((r, s), empty_command)
  handle_tokens r (name ∷ args) ctx now s =
      if contains name supported_commands
      then run_command r name args ctx now s
      else ((r, s), unknown name)

  unfoldable pub handle :
      ChatCommandRouter S C R → String → C → ℕ → S → (ChatCommandRouter S C R × S) × Response R
  unfolding handle_tokens split_words
  handle r String.[] ctx now s = ((r, s), ignored)
  handle r (String.◌∷◌ c line) ctx now s =
      if eqb (code c) b'/'
      then handle_tokens r (split_words (strip line)) ctx now s
      else ((r, s), ignored)
