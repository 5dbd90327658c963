-- ===== src/Gateway/Ssh/Commands.antt =====
-- Which commands and options reach the ssh binary.
use plugin_baselithbot.Lists.{is_nil, contains, All}
use plugin_baselithbot.Common.{
  ℕ, String, ◌≡◌, refl, ap, ◌∙◌, subst, ◌⊎◌, inl, inr, Bool, true, false, not, ◌&&◌, none, some,
  List, [], ◌∷◌, arith, eqb, if◌then◌else◌, Bool-cases, Option-cases, is_some, and_left, and_right,
}
use Prim.Native.Char.{code}
use plugin_baselithbot.Strings.{joined, after_prefix, Char_eq, after_prefix_eq}
use plugin_baselithbot.Security.Shlex.{split}
use plugin_baselithbot.Security.ShellMeta.{lex_command, find_shell_meta}
use plugin_baselithbot.Security.ShellMeta.Plain.{is_plain, has_operator}
use plugin_baselithbot.Security.ShellMeta.Complete.{find_shell_meta-has_operator}
use plugin_baselithbot.Gateway.Ssh.{
  safe_ssh_o_keys, safe_ssh_short_flags, partition_equals, has_lower, validate_extra_option,
  check_extra_options, SshGatewayConfig, build_config, check_no_shell_meta, head_of, check, argv_of,
  Outcome, run,
}

-- Whether the command is lexed, holds no metacharacter that is found, and its first word is allowed.
unfoldable pub is_permitted : SshGatewayConfig → String → Bool
unfolding lex_command find_shell_meta split contains
is_permitted c command =
    not (is_nil c.allowed_commands)
    && elim (lex_command command) [
      | none ↦ false
      | some tokens ↦ not (is_some (find_shell_meta command tokens))
    ]
    && elim (split command) [
      | none ↦ false
      | some parts ↦ contains (head_of parts) c.allowed_commands
    ]

check-is_permitted :
    (c : SshGatewayConfig) (command : String)
    → is_some (check c command) ≡ not (is_permitted c command)
unfolding check check_no_shell_meta is_permitted
check-is_permitted c command = ground arith

-- A command reaches the ssh binary, once and as one word behind the options, exactly if it is lexed
-- without a metacharacter and its first word is in the list of allowed commands.
pub run-is_permitted :
    (system : List String → ℕ → Outcome) (decode : String → String) (c : SshGatewayConfig)
    (command : String)
    → (run system decode c command).0
      ≡ (if is_permitted c command then argv_of c command ∷ [] else [])
unfolding run
run-is_permitted system decode c command = ground (arith, check-is_permitted c command)

operator-not_permitted :
    (c : SshGatewayConfig) (command : String)
    → is_plain false command ≡ true
    → has_operator command ≡ true
    → is_permitted c command ≡ false
unfolding is_permitted
operator-not_permitted c command plain operator =
    let (tokens, lexed, refuses) = find_shell_meta-has_operator command plain in
    ground (arith, refuses operator)

-- A command with no quotation mark, no backslash, no "#" and no two operators in a row never reaches the
-- ssh binary if a shell operator stands anywhere in it, whatever is allowed.
pub run-no_operator :
    (system : List String → ℕ → Outcome) (decode : String → String) (c : SshGatewayConfig)
    (command : String)
    → is_plain false command ≡ true
    → has_operator command ≡ true
    → (run system decode c command).0 ≡ []
run-no_operator system decode c command plain operator =
    rw (run-is_permitted system decode c command, operator-not_permitted c command plain operator)
      refl

-- One of the short flags, or a directive whose key is one of the safe ones in any case.
abbrev pub IsSafe : String → Type 0
IsSafe opt =
    (contains opt safe_ssh_short_flags ≡ true)
    ⊎ ((key : String) × (value : String) × (opt ≡ joined "-o" (joined key (joined "=" value)))
        × (has_lower safe_ssh_o_keys key ≡ true))

partition_equals-joined :
    (s key value : String)
    → partition_equals s ≡ some (key, value)
    → s ≡ joined key (joined "=" value)
unfolding partition_equals joined
partition_equals-joined String.[] key value h = absurd (ground arith)
partition_equals-joined (String.◌∷◌ c s) key value h = elim (Bool-cases (eqb (code c) b'=')) [
  | inl e ↦
      let k : key ≡ "" = ground arith in
      let v : value ≡ s = ground arith in rw (k, v) (ap (λ d. String.◌∷◌ d s) (Char_eq c "=" e))
  | inr e ↦ elim (Option-cases (partition_equals s)) [
    | inl none_left ↦ absurd (ground arith)
    | inr (p, same) ↦
        let k : key ≡ String.◌∷◌ c p.0 = ground arith in
        let v : value ≡ p.1 = ground arith in
        rw (k, v) (ap (String.◌∷◌ c) (partition_equals-joined s p.0 p.1 same))
  ]
]

directive :
    (opt : String)
    → validate_extra_option opt ≡ true
    → contains opt safe_ssh_short_flags ≡ false
    → (body : String) × (key : String) × (value : String) × (after_prefix "-o" opt ≡ some body)
      × (partition_equals body ≡ some (key, value))
      × (has_lower safe_ssh_o_keys key ≡ true)
unfolding validate_extra_option
directive opt h other = elim (Option-cases (after_prefix "-o" opt)) [
  | inl e ↦ absurd (ground arith)
  | inr (body, e) ↦ elim (Option-cases (partition_equals body)) [
    | inl e' ↦ absurd (ground arith)
    | inr (p, e') ↦ (body, p.0, p.1, e, e', ground arith)
  ]
]

-- What a validated option is.
validate-IsSafe : (opt : String) → validate_extra_option opt ≡ true → IsSafe opt
validate-IsSafe opt h = elim (Bool-cases (contains opt safe_ssh_short_flags)) [
  | inl e ↦ inl e
  | inr e ↦
      let (body, key, value, prefix, parts, safe) = directive opt h e in
      inr (
        key,
        value,
        after_prefix_eq "-o" opt body prefix
            ∙ ap (joined "-o") (partition_equals-joined body key value parts),
        safe,
      )
]

options-AreSafe : (opts : List String) → check_extra_options opts ≡ true → All IsSafe opts
unfolding check_extra_options
options-AreSafe [] h = tt
options-AreSafe (opt ∷ opts) h = (
  validate-IsSafe opt (and_left (validate_extra_option opt) (check_extra_options opts) h),
  options-AreSafe opts (and_right (validate_extra_option opt) (check_extra_options opts) h),
)

-- Each extra option of a configuration that was built is one of the short flags, or is "-o", a key that is
-- one of the safe ones in any case, "=" and a value.
pub build_config-AreSafe :
    (c built : SshGatewayConfig) → build_config c ≡ some built → All IsSafe built.extra_options
unfolding build_config
build_config-AreSafe c built h =
    let same : c ≡ built = ground arith in
    let checked : check_extra_options c.extra_options ≡ true = ground arith in
    subst (λ d. All IsSafe d.extra_options) same (options-AreSafe c.extra_options checked)
