-- ===== src/ComputerUse/Filesystem/Kept.antt =====
-- What putting a file below the root keeps of the host.
use plugin_baselithbot.Common.{
  String, ◌≡◌, refl, ◌∙◌, subst, ◌⊎◌, inl, inr, true, false, some, [], ◌∷◌, arith, ◌==◌, eq_iff,
  Bool-cases, Option-cases, and_left, and_right, eq_refl,
}
use plugin_baselithbot.ComputerUse.Config.{ComputerUseError}
use plugin_baselithbot.ComputerUse.Paths.{FilePath, same_path, is_under, parent, Host, IsLawful}
use plugin_baselithbot.ComputerUse.Filesystem.{Result, ok, refused, raised, put_file}

pub Result-cases {ℓ} :
    {A : Type ℓ} (r : Result A)
    → ((a : A) × (r ≡ ok a))
      ⊎ (((e : ComputerUseError) × (r ≡ refused e)) ⊎ ((n : String) × (r ≡ raised n)))
Result-cases (ok a) = inl (a, refl)
Result-cases (refused e) = inr (inl (e, refl))
Result-cases (raised n) = inr (inr (n, refl))

module _ {H : Host} (L : IsLawful H) where
  -- What a change keeps of a host: how paths are resolved, and the contents outside the root.
  abbrev pub Keeps : FilePath → H.State → H.State → Type 0
  Keeps root s t =
      ((p : FilePath) → H.resolve t p ≡ H.resolve s p)
      × ((q : FilePath)
          → H.resolve s q ≡ q
          → is_under root q ≡ false
          → H.content t q ≡ H.content s q)

  pub Keeps-refl : (root : FilePath) (s : H.State) → Keeps root s s
  Keeps-refl root s = (λ p. refl, λ q r u. refl)

  pub Keeps-trans :
      (root : FilePath) (s t u : H.State) → Keeps root s t → Keeps root t u → Keeps root s u
  Keeps-trans root s t u k l =
      (λ p. l.0 p ∙ k.0 p, λ q resolved out. l.1 q (k.0 q ∙ resolved) out ∙ k.1 q resolved out)

  pub same_path→eq : (p q : FilePath) → same_path p q ≡ true → p ≡ q
  unfolding same_path
  same_path→eq [] [] h = refl
  same_path→eq [] (n ∷ q) h = absurd (ground arith)
  same_path→eq (m ∷ p) [] h = absurd (ground arith)
  same_path→eq (m ∷ p) (n ∷ q) h =
      rw
        (
          (eq_iff m n).0 (and_left (m == n) (same_path p q) h),
          same_path→eq p q (and_right (m == n) (same_path p q) h),
        )
        refl

  pub apart :
      (root p q : FilePath)
      → is_under root p ≡ true
      → is_under root q ≡ false
      → same_path p q ≡ false
  apart root p q inside out = elim (Bool-cases (same_path p q)) [
    | inl e ↦
        absurd (ground (arith, subst (λ r. is_under root r ≡ true) (same_path→eq p q e) inside))
    | inr e ↦ e
  ]

  mkdir-Keeps :
      (root : FilePath) (s t : H.State) (p : FilePath) → H.mkdir s p ≡ some t → Keeps root s t
  mkdir-Keeps root s t p e =
      (λ q. L.resolve-mkdir s t p q e, λ q resolved out. L.content-mkdir s t p q e)

  write-Keeps :
      (root : FilePath) (s t : H.State) (target : FilePath) (b : H.Bytes)
      → H.write_bytes s target b ≡ some t
      → H.resolve s target ≡ target
      → is_under root target ≡ true
      → Keeps root s t
  write-Keeps root s t target b e resolved inside = (
    λ q. L.resolve-write s t target q b e,
    λ q r out.
        L.content-write s t target q b e resolved r ∙ rw (apart root target q inside out) refl,
  )

  pub put_file-Keeps :
      (root : FilePath) (s : H.State) (target : FilePath) (content : String)
      → H.resolve s target ≡ target
      → is_under root target ≡ true
      → Keeps root s (put_file H s target content).0
  unfolding put_file is_under
  put_file-Keeps root s target content resolved inside =
      elim (Option-cases (H.mkdir s (parent target))) [
        | inl e ↦ rw (put_file, e) (Keeps-refl root s)
        | inr (made, e) ↦
            let kept = mkdir-Keeps root s made (parent target) e in
            elim (Option-cases (H.write_bytes made target (H.encode content))) [
              | inl e' ↦ rw (put_file, e, e') kept
              | inr (t, e') ↦
                  rw (put_file, e, e')
                    (Keeps-trans root s made t kept (
                      write-Keeps root made t target (H.encode content) e'
                        (kept.0 target ∙ resolved) inside))
            ]
      ]

  same_path_refl : (p : FilePath) → same_path p p ≡ true
  unfolding same_path
  same_path_refl [] = refl
  same_path_refl (n ∷ p) = rw (eq_refl n) (same_path_refl p)

  -- A file that was put without an error has the bytes of its text.
  pub content-put_file :
      (s : H.State) (target : FilePath) (content : String)
      → H.resolve s target ≡ target
      → (put_file H s target content).1 ≡ true
      → H.content (put_file H s target content).0 target ≡ some (H.encode content)
  unfolding put_file
  content-put_file s target content resolved h = elim (Option-cases (H.mkdir s (parent target))) [
    | inl e ↦ absurd (ground arith)
    | inr (made, e) ↦ elim (Option-cases (H.write_bytes made target (H.encode content))) [
      | inl e' ↦ absurd (ground arith)
      | inr (t, e') ↦
          let still = L.resolve-mkdir s made (parent target) target e ∙ resolved in
          rw (put_file, e, e')
            (L.content-write made t target target (H.encode content) e' still still
              ∙ rw (same_path_refl target) refl)
    ]
  ]

  -- It leaves the other files as they are.
  pub content-put_file_other :
      (s : H.State) (target q : FilePath) (content : String)
      → H.resolve s target ≡ target
      → H.resolve s q ≡ q
      → same_path target q ≡ false
      → H.content (put_file H s target content).0 q ≡ H.content s q
  unfolding put_file
  content-put_file_other s target q content resolved r apart_from =
      elim (Option-cases (H.mkdir s (parent target))) [
        | inl e ↦ rw (put_file, e) refl
        | inr (made, e) ↦
            let same = L.content-mkdir s made (parent target) q e in
            let keeps : (p : FilePath) → H.resolve made p ≡ H.resolve s p =
              λ p. L.resolve-mkdir s made (parent target) p e in
            elim (Option-cases (H.write_bytes made target (H.encode content))) [
              | inl e' ↦ rw (put_file, e, e') same
              | inr (t, e') ↦
                  rw (put_file, e, e')
                    (L.content-write made t target q (H.encode content) e' (keeps target ∙ resolved)
                        (keeps q ∙ r)
                      ∙ rw apart_from same)
            ]
      ]
