-- ===== src/ComputerUse/Paths.antt =====
-- `pathlib` of Python's standard library: absolute paths, as their components from the innermost, and
-- what a host offers for them.
pub mod Memory
use plugin_baselithbot.Text.{is_empty}
use plugin_baselithbot.Common.{
  ℕ, String, ◌≡◌, Bool, true, false, ◌&&◌, ◌||◌, Option, some, List, [], ◌∷◌, ◌==◌, eqb,
  if◌then◌else◌, ltb,
}
use Prim.Native.Char.{code}
use plugin_baselithbot.Strings.{joined, starts_with}

abbrev pub FilePath : Type 0
FilePath = List String

unfoldable pub same_path : FilePath → FilePath → Bool
same_path [] [] = true
same_path [] (n ∷ q) = false
same_path (m ∷ p) [] = false
same_path (m ∷ p) (n ∷ q) = m == n && same_path p q

-- Whether path.relative_to(root) raises no ValueError.
unfoldable pub is_under : FilePath → FilePath → Bool
unfolding same_path
is_under root [] = same_path root []
is_under root (n ∷ p) = same_path root (n ∷ p) || is_under root p

-- The components of a text, the first of which is `name` up to here.
unfoldable pub components : String → String → List String
unfolding joined
components name String.[] = name ∷ []
components name (String.◌∷◌ c s) =
    if eqb (code c) b'/'
    then name ∷ components "" s
    else components (joined name (String.◌∷◌ c "")) s

unfoldable pub descend : FilePath → List String → FilePath
descend p [] = p
descend p (n ∷ ns) = if is_empty n || n == "." then descend p ns else descend (n ∷ p) ns

-- base / path
unfoldable pub join_path : FilePath → String → FilePath
unfolding descend components starts_with
join_path base path =
    if starts_with "/" path
    then descend [] (components "" path)
    else descend base (components "" path)

-- str(path)
unfoldable pub render_below : FilePath → String
unfolding joined
render_below [] = ""
render_below (n ∷ p) = joined (render_below p) (joined "/" n)

unfoldable pub render : FilePath → String
unfolding render_below
render [] = "/"
render (n ∷ p) = render_below (n ∷ p)

abbrev pub parent : FilePath → FilePath
parent [] = []
parent (n ∷ p) = p

-- path.suffix == ".py"
unfoldable pub ends_in_py : String → Bool
ends_in_py String.[] = false
ends_in_py (String.◌∷◌ c s) = (s == ".py") || ends_in_py s

abbrev pub has_py_suffix : FilePath → Bool
unfolding ends_in_py
has_py_suffix [] = false
has_py_suffix (n ∷ p) = ends_in_py n

-- What a host offers: `content` are the bytes of the file that a path leads to, if it leads to one;
-- `write_bytes` and `mkdir` with its parents are none for an OSError; `encode` and `decode` are UTF-8;
-- `compile` is `py_compile`.
pub data Compiled : Type 0 where
  clean other_failure : Compiled
  syntax_error : String → Compiled

pub record Host : Type 1 where
  pub State : Type 0
  pub Bytes : Type 0
  pub resolve : State → FilePath → FilePath
  pub content : State → FilePath → Option Bytes
  pub exists : State → FilePath → Bool
  pub is_dir : State → FilePath → Bool
  pub is_symlink : State → FilePath → Bool
  pub iterdir : State → FilePath → List String
  pub write_bytes : State → FilePath → Bytes → Option State
  pub mkdir : State → FilePath → Option State
  pub encode : String → Bytes
  pub decode : Bytes → Option String
  pub byte_count : Bytes → ℕ
  pub compile : State → FilePath → Compiled

-- What is relied on: the laws of a file system in which a file has one resolved path.
pub record IsLawful (H : Host) : Type 0 where
  pub resolve-resolve : (s : H.State) (p : FilePath) → H.resolve s (H.resolve s p) ≡ H.resolve s p
  pub resolved_parent :
      (s : H.State) (n : String) (p : FilePath) → H.resolve s (n ∷ p) ≡ n ∷ p → H.resolve s p ≡ p
  pub symlink_moves : (s : H.State) (p : FilePath) → H.resolve s p ≡ p → H.is_symlink s p ≡ false
  pub content-write :
      (s t : H.State) (p q : FilePath) (b : H.Bytes)
      → H.write_bytes s p b ≡ some t
      → H.resolve s p ≡ p
      → H.resolve s q ≡ q
      → H.content t q ≡ (if same_path p q then some b else H.content s q)
  pub resolve-write :
      (s t : H.State) (p q : FilePath) (b : H.Bytes)
      → H.write_bytes s p b ≡ some t
      → H.resolve t q ≡ H.resolve s q
  pub content-mkdir :
      (s t : H.State) (p q : FilePath) → H.mkdir s p ≡ some t → H.content t q ≡ H.content s q
  pub resolve-mkdir :
      (s t : H.State) (p q : FilePath) → H.mkdir s p ≡ some t → H.resolve t q ≡ H.resolve s q
  pub decode-encode : (c : String) → H.decode (H.encode c) ≡ some c

-- sorted(...), by the code points of the names
unfoldable pub text_leb : String → String → Bool
text_leb String.[] t = true
text_leb (String.◌∷◌ c s) String.[] = false
text_leb (String.◌∷◌ c s) (String.◌∷◌ d t) =
    ltb (code c) (code d) || (eqb (code c) (code d) && text_leb s t)

unfoldable pub insert_name : String → List String → List String
unfolding text_leb
insert_name n [] = n ∷ []
insert_name n (m ∷ ms) = if text_leb n m then n ∷ m ∷ ms else m ∷ insert_name n ms

unfoldable pub sorted : List String → List String
unfolding insert_name
sorted [] = []
sorted (n ∷ ns) = insert_name n (sorted ns)
