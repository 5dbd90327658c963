-- ===== src/Dict.antt =====
-- Python's `dict` and `OrderedDict` with text keys, as an association list in insertion order.
pub mod Keys
use plugin_baselithbot.Common.{
  ℕ, suc, ◌+◌, ◌≤◌, String, ◌≡◌, refl, ap, Bool, true, false, Option, none, some, List, [], ◌∷◌,
  ◌++◌, arith, ◌==◌, eq_iff, if◌then◌else◌, Option-cases, inl, inr, map,
}
use plugin_baselithbot.Lists.{length}
use mathlib.Core.Option

abbrev pub Dict {ℓ} : Type ℓ → Type ℓ
Dict V = List (String × V)

module _ {ℓ} {V : Type ℓ} where
  -- d.get(k)
  unfoldable pub get : Dict V → String → Option V
  get [] k = none
  get ((j, v) ∷ d) k = if j == k then some v else get d k

  -- d[k] = v: a key that is there keeps its place
  unfoldable pub put : Dict V → String → V → Dict V
  put [] k v = (k, v) ∷ []
  put ((j, w) ∷ d) k v = if j == k then (j, v) ∷ d else (j, w) ∷ put d k v

  -- d.pop(k, None), del d[k]
  unfoldable pub remove : Dict V → String → Dict V
  remove [] k = []
  remove ((j, w) ∷ d) k = if j == k then remove d k else (j, w) ∷ remove d k

  -- a change of the object that is stored under k
  unfoldable pub adjust : Dict V → String → (V → V) → Dict V
  adjust [] k f = []
  adjust ((j, w) ∷ d) k f = if j == k then (j, f w) ∷ d else (j, w) ∷ adjust d k f

  -- the comprehension { k: v for k, v in d.items() if p(k, v) }
  unfoldable pub retain : (String → V → Bool) → Dict V → Dict V
  retain p [] = []
  retain p ((j, w) ∷ d) = if p j w then (j, w) ∷ retain p d else retain p d

  -- d.move_to_end(k)
  unfoldable pub move_to_end : Dict V → String → Dict V
  unfolding get remove
  move_to_end d k = elim (get d k) [ none ↦ d | some v ↦ remove d k ++ (k, v) ∷ [] ]

  -- list(d.values())
  unfoldable pub values : Dict V → List V
  values [] = []
  values ((j, w) ∷ d) = w ∷ values d

  -- list(d)
  unfoldable pub keys : Dict V → List String
  keys [] = []
  keys ((j, w) ∷ d) = j ∷ keys d

  pub get-put :
      (d : Dict V) (k j : String) (v : V) → get (put d k v) j ≡ (if k == j then some v else get d j)
  unfolding get put
  get-put [] k j v = refl
  get-put ((i, w) ∷ d) k j v = ground (arith, eq_iff k j, eq_iff i k, eq_iff i j, get-put d k j v)

  pub get-remove :
      (d : Dict V) (k j : String) → get (remove d k) j ≡ (if k == j then none else get d j)
  unfolding get remove
  get-remove [] k j = ground arith
  get-remove ((i, w) ∷ d) k j = ground (arith, eq_iff k j, eq_iff i k, eq_iff i j, get-remove d k j)

  pub get-adjust :
      (d : Dict V) (k j : String) (f : V → V)
      → get (adjust d k f) j ≡ (if k == j then Option.map f (get d j) else get d j)
  unfolding get adjust
  get-adjust [] k j f = ground arith
  get-adjust ((i, w) ∷ d) k j f =
      ground (arith, eq_iff k j, eq_iff i k, eq_iff i j, get-adjust d k j f)

  pub get-append :
      (d e : Dict V) (j : String)
      → get (d ++ e) j ≡ elim (get d j) [ none ↦ get e j | some v ↦ some v ]
  unfolding get
  get-append [] e j = refl
  get-append ((i, w) ∷ d) e j = ground (arith, get-append d e j)

  -- Moving a key to the end changes no lookup.
  pub move_to_end_of_none : (d : Dict V) (k : String) → get d k ≡ none → move_to_end d k ≡ d
  unfolding move_to_end
  move_to_end_of_none d k e = ground arith

  pub move_to_end_of_some :
      (d : Dict V) (k : String) (v : V)
      → get d k ≡ some v
      → move_to_end d k ≡ remove d k ++ (k, v) ∷ []
  unfolding move_to_end
  move_to_end_of_some d k v e = ground arith

  get-append_one :
      (d : Dict V) (k j : String) (v : V)
      → get d k ≡ some v
      → get (remove d k ++ (k, v) ∷ []) j ≡ get d j
  unfolding get
  get-append_one d k j v e =
      ground (arith, get-append (remove d k) ((k, v) ∷ []) j, get-remove d k j, eq_iff k j)

  -- Moving a key to the end changes no lookup.
  pub get-move_to_end : (d : Dict V) (k j : String) → get (move_to_end d k) j ≡ get d j
  get-move_to_end d k j = elim (Option-cases (get d k)) [
    | inl e ↦ rw (move_to_end_of_none d k e)
    | inr (v, e) ↦ rw (move_to_end_of_some d k v e) (get-append_one d k j v e)
  ]

  pub length-put-le : (d : Dict V) (k : String) (v : V) → length (put d k v) ≤ length d + 1
  unfolding put
  length-put-le [] k v = omega arith
  length-put-le ((i, w) ∷ d) k v = ground (arith, length-put-le d k v)

  pub length-remove-le : (d : Dict V) (k : String) → length (remove d k) ≤ length d
  unfolding remove
  length-remove-le [] k = omega arith
  length-remove-le ((i, w) ∷ d) k = ground (arith, length-remove-le d k)

  pub length-adjust : (d : Dict V) (k : String) (f : V → V) → length (adjust d k f) ≡ length d
  unfolding adjust
  length-adjust [] k f = refl
  length-adjust ((i, w) ∷ d) k f = ground (arith, length-adjust d k f)

  pub length-retain-le : (p : String → V → Bool) (d : Dict V) → length (retain p d) ≤ length d
  unfolding retain
  length-retain-le p [] = omega arith
  length-retain-le p ((i, w) ∷ d) = ground (arith, length-retain-le p d)

pub ruleset dict_laws = (get-put, get-remove, get-adjust)

module _ {ℓ} {V : Type ℓ} where
  -- d.popitem(last=False), where the dictionary has an entry
  unfoldable pub pop_first : Dict V → Option (String × Dict V)
  pop_first [] = none
  pop_first ((k, v) ∷ d) = some (k, d)

  -- for k in ks: d.pop(k, None)
  unfoldable pub remove_all : Dict V → List String → Dict V
  unfolding remove
  remove_all d [] = d
  remove_all d (k ∷ ks) = remove_all (remove d k) ks

  -- The last value, in the order of the entries.
  unfoldable pub last_value : Dict V → Option V
  last_value [] = none
  last_value ((k, v) ∷ []) = some v
  last_value (e ∷ f ∷ d) = last_value (f ∷ d)

  pub last_value-append_one :
      (d : Dict V) (k : String) (v : V) → last_value (d ++ (k, v) ∷ []) ≡ some v
  unfolding last_value
  last_value-append_one [] k v = refl
  last_value-append_one (e ∷ []) k v = refl
  last_value-append_one (e ∷ f ∷ d) k v = last_value-append_one (f ∷ d) k v
