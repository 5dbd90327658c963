-- ===== src/ComputerUse/Paths/Memory.antt =====
-- A host that keeps its files in memory and has no symbolic links.
use plugin_baselithbot.Lists.{is_nil, All}
use plugin_baselithbot.Common.{
  String, ◌≡◌, refl, subst, inl, inr, Bool, false, ◌||◌, Option, none, some, List, [], ◌∷◌, arith,
  ◌==◌, if◌then◌else◌, Bool-cases, is_some,
}
use plugin_baselithbot.Strings.{size}
use plugin_baselithbot.ComputerUse.Paths.{
  FilePath, same_path, is_under, parent, clean, Host, IsLawful,
}

-- Without the components "..", each of which drops the one before it.
unfoldable pub normal : FilePath → FilePath
normal [] = []
normal (n ∷ p) = let q = normal p in if n == ".." then parent q else n ∷ q

abbrev NoDots : FilePath → Type 0
NoDots p = All (λ n. (n == "..") ≡ false) p

parent-NoDots : (p : FilePath) → NoDots p → NoDots (parent p)
parent-NoDots [] h = tt
parent-NoDots (n ∷ p) h = h.1

normal-NoDots : (p : FilePath) → NoDots (normal p)
unfolding normal
normal-NoDots [] = tt
normal-NoDots (n ∷ p) = elim (Bool-cases (n == "..")) [
  | inl e ↦ rw e (parent-NoDots (normal p) (normal-NoDots p))
  | inr e ↦ rw (normal, e) (e, normal-NoDots p)
]

normal_id : (p : FilePath) → NoDots p → normal p ≡ p
unfolding normal
normal_id [] h = refl
normal_id (n ∷ p) h = rw (h.0, normal_id p h.1) refl

-- The files, the last that was written first.
abbrev pub Files : Type 0
Files = List (FilePath × String)

unfoldable pub lookup : Files → FilePath → Option String
unfolding same_path
lookup [] p = none
lookup ((q, b) ∷ fs) p = if same_path q p then some b else lookup fs p

-- Whether some file is below the path.
unfoldable pub has_below : Files → FilePath → Bool
unfolding is_under
has_below [] p = false
has_below ((q, b) ∷ fs) p = is_under p (parent q) || has_below fs p

-- Whether the path or one above it is a file.
unfoldable pub is_blocked : Files → FilePath → Bool
unfolding lookup
is_blocked fs [] = false
is_blocked fs (n ∷ p) = is_some (lookup fs (n ∷ p)) || is_blocked fs p

abbrev pub memory_host : Host
memory_host = record {
  State = Files;
  Bytes = String;
  resolve = λ fs p. normal p;
  content = lookup;
  exists = λ fs p. is_some (lookup fs p) || has_below fs p;
  is_dir = has_below;
  is_symlink = λ fs p. false;
  iterdir = λ fs p. [];
  write_bytes = λ fs p b. if has_below fs p || is_nil p then none else some ((p, b) ∷ fs);
  mkdir = λ fs p. if is_blocked fs p then none else some fs;
  encode = λ s. s;
  decode = λ b. some b;
  byte_count = size;
  compile = λ fs p. clean;
}

content-write :
    (fs gs : Files) (p q : FilePath) (b : String)
    → memory_host.write_bytes fs p b ≡ some gs
    → lookup gs q ≡ (if same_path p q then some b else lookup fs q)
unfolding lookup
content-write fs gs p q b h = elim (Bool-cases (has_below fs p || is_nil p)) [
  | inl e ↦ absurd (ground arith)
  | inr e ↦ let same : gs ≡ (p, b) ∷ fs = ground arith in rw same refl
]

pub memory_host-IsLawful : IsLawful memory_host
unfolding normal
memory_host-IsLawful = record {
  resolve-resolve = λ fs p. normal_id (normal p) (normal-NoDots p);
  resolved_parent = λ fs n p h. normal_id p (subst NoDots h (normal-NoDots (n ∷ p))).1;
  symlink_moves = λ fs p h. refl;
  content-write = λ fs gs p q b h r s. content-write fs gs p q b h;
  resolve-write = λ fs gs p q b h. refl;
  content-mkdir = λ fs gs p q h. ground arith;
  resolve-mkdir = λ fs gs p q h. refl;
  decode-encode = λ c. refl;
}
