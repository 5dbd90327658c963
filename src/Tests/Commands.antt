-- ===== src/Tests/Commands.antt =====
-- Inputs for the slash commands.
use plugin_baselithbot.Text.{is_space, strip}
use plugin_baselithbot.Dict.{get}
use plugin_baselithbot.Lists.{length, contains}
use plugin_baselithbot.Chat.Commands.{
  words_from, split_words, CommandHandler, ChatCommandRouter, unknown, handled, handle,
}
use plugin_baselithbot.Chat.Commands.Effects.{Effect, handle-Effect}
use plugin_baselithbot.Common.{ℕ, ◌≡◌, refl, suc, [], ◌∷◌}

-- A handler that counts its arguments.
abbrev counts_args : CommandHandler ℕ ℕ ℕ
counts_args args ctx n = (suc n, length args)

abbrev router : ChatCommandRouter ℕ ℕ ℕ
router = record {
  handlers = ("think", counts_args) ∷ [];
  stats = ("think", 0) ∷ [];
  started_at = 5;
}

think_answer : (handle router "/think  very hard" 0 9 0).1 ≡ handled 2
unfolding handle split_words words_from strip is_space contains get
think_answer = refl

reboot_answer : (handle router "/reboot now" 0 9 0).1 ≡ unknown "reboot"
unfolding handle split_words words_from strip is_space contains get
reboot_answer = refl

handle-Effect_example :
    Effect router 0 9 0
      (split_words (strip "think  very hard"))
      (handle router "/think  very hard" 0 9 0)
handle-Effect_example = handle-Effect router 0 9 0 "/" "think  very hard" refl
