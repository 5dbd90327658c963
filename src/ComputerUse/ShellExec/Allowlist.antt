-- ===== src/ComputerUse/ShellExec/Allowlist.antt =====
-- Which commands the allowlist lets through.
use plugin_baselithbot.Lists.{contains, is_nil}
use plugin_baselithbot.Common.{
  String, ◌≡◌, refl, inl, inr, Bool, true, false, not, ◌&&◌, ◌||◌, List, [], ◌∷◌, ◌==◌, Bool-cases,
  sym, ◌∙◌, subst, arith, eq_iff, eq_refl, if◌then◌else◌, is_some, ==_ne,
}
use plugin_baselithbot.Strings.{starts_with, has_text}
use plugin_baselithbot.ComputerUse.Config.{ComputerUseConfig}
use plugin_baselithbot.ComputerUse.ShellExec.{is_absolute, is_path, matches, check_allowed}

-- Whether the binary is in the list, and is a bare name or an absolute path.
unfoldable pub is_listed : ComputerUseConfig → List String → Bool
unfolding contains has_text starts_with
is_listed c [] = false
is_listed c (head ∷ args) =
    contains head c.allowed_shell_commands && (is_absolute head || not (is_path head))

same_match :
    (a p c m : Bool)
    → m ≡ (c && (a || not p))
    → ((if a then true else not p && true) || m) ≡ ((true || c) && (a || not p))
same_match true p c m e = refl
same_match false true c m e = rw e (ground arith)
same_match false false c m e = refl

other_match : (a p m : Bool) → ((if a then false else not p && false) || m) ≡ m
other_match true p m = refl
other_match false true m = refl
other_match false false m = refl

==_flip : (p head : String) → p == head ≡ false → head == p ≡ false
==_flip p head e = ==_ne head p (λ h.
    absurd (ground (arith, eq_refl p, subst (λ x. x == head ≡ false) (sym h) e, eq_refl head)))

matches-contains :
    (ps : List String) (head : String)
    → matches ps head ≡ (contains head ps && (is_absolute head || not (is_path head)))
unfolding matches contains
matches-contains [] head = refl
matches-contains (p ∷ ps) head = elim (Bool-cases (p == head)) [
  | inl e ↦
      subst
        (λ q.
          matches (q ∷ ps) head
          ≡ (contains head (q ∷ ps) && (is_absolute head || not (is_path head))))
        (sym ((eq_iff p head).0 e))
        (rw (eq_refl head) (
          same_match (is_absolute head) (is_path head) (contains head ps) (matches ps head)
            (matches-contains ps head)))
  | inr e ↦
      rw (e, ==_flip p head e)
        (other_match (is_absolute p) (is_path head) (matches ps head) ∙ matches-contains ps head)
]

nothing_listed : (ps : List String) (head : String) → is_nil ps ≡ true → contains head ps ≡ false
unfolding contains
nothing_listed [] head h = refl
nothing_listed (p ∷ ps) head h = absurd (ground arith)

-- A command passes the allowlist exactly if its binary is literally one of the list, and is not a path
-- relative to the directory: a pattern is never a prefix, and a pattern that is a relative path lets
-- nothing through.
pub check_allowed-is_listed :
    (c : ComputerUseConfig) (argv : List String)
    → is_some (check_allowed c argv) ≡ not (is_listed c argv)
unfolding check_allowed is_listed
check_allowed-is_listed c [] = refl
check_allowed-is_listed c (head ∷ args) = elim (Bool-cases (is_nil c.allowed_shell_commands)) [
  | inl e ↦ rw (e, nothing_listed c.allowed_shell_commands head e) refl
  | inr e ↦ rw (e, sym (matches-contains c.allowed_shell_commands head)) (ground arith)
]
