-- ===== src/Control/Replay/Screenshots.antt =====
-- control/replay.py: screenshots through the store, encrypted or not, and who may read them.
use plugin_baselithbot.Strings.{after_prefix, after_prefix-joined}
use plugin_baselithbot.Control.Replay.Reads.{
  run_of_tenant, ListedRun, insert_newest, newest_first, take, listed, list_runs, read_run, get_run,
  read_screenshot, get_run_step_screenshot,
}
use plugin_baselithbot.Control.Replay.Durable.{
  Call, adds, step, call_all, write, flush-commits, step-IsValid, call_all-IsValid,
}
use plugin_baselithbot.Control.Replay.Reads.{run_of_tenant}
use plugin_baselithbot.Control.Replay.Durable.{adds, write}
use plugin_baselithbot.Dict.{get, Dict}
use plugin_baselithbot.Lists.{keep, keep-append, All}
use plugin_baselithbot.Control.Replay.Rows.{StepRow, Tables, has_key, replace_step, RunRow}
use plugin_baselithbot.Control.Replay.{
  Fernet, encrypted_prefix, encrypt_screenshot, decrypt_screenshot, Json, ReplayStore,
  insert_step_row, add_step, init,
}
use plugin_baselithbot.Common.{
  ℕ, String, ◌≡◌, refl, Option, none, some, [], ◌∷◌, arith, ◌∙◌, inl, inr, Bool, true, not, List,
  eq_iff, eq_refl, eqb, Option-cases, zero, suc, max, ◌≢◌, ◌==◌, Bool-cases, ==_ne,
}

-- A text without the prefix comes back with the key that it was stored with, or without any.
pub decrypt-encrypt_screenshot :
    (fernet : Option Fernet) (nonce : ℕ) (value : String)
    → after_prefix encrypted_prefix value ≡ none
    → decrypt_screenshot fernet (encrypt_screenshot fernet nonce (some value)) ≡ some value
unfolding decrypt_screenshot encrypt_screenshot
decrypt-encrypt_screenshot none nonce value h = rw (h, decrypt_screenshot)
decrypt-encrypt_screenshot (some f) nonce value h =
    rw (h, encrypt_screenshot)
      (rw (after_prefix-joined encrypted_prefix (f.encrypt nonce value), decrypt_screenshot)
        (f.decrypt-encrypt nonce value))

keep-not : (p : StepRow → Bool) (rows : List StepRow) → keep p (keep (λ r. not (p r)) rows) ≡ []
unfolding keep
keep-not p [] = refl
keep-not p (r ∷ rows) = ground (arith, keep-not p rows)

eqb_refl : (n : ℕ) → eqb n n ≡ true
eqb_refl n = ground arith

-- The rows with the key of the row that was just entered: that row only.
keep-replaced :
    (t : Tables) (row : StepRow)
    → keep (has_key row.run_id row.step_index) (replace_step t row).steps ≡ row ∷ []
unfolding replace_step keep
keep-replaced t row =
    let p = has_key row.run_id row.step_index in
    keep-append p (keep (λ r. not (p r)) t.steps) (row ∷ [])
    ∙ rw (keep-not p t.steps) (rw (eq_refl row.run_id, eqb_refl row.step_index))

-- Only a run's own tenant selects the run.
run_of_tenant-owned :
    (t : Tables) (id tenant : String) (row : RunRow)
    → run_of_tenant t id tenant ≡ some row
    → (get t.runs id ≡ some row) × (row.tenant_id ≡ tenant)
unfolding run_of_tenant
run_of_tenant-owned t id tenant row e = elim (Option-cases (get t.runs id)) [
  | inl n ↦ ground arith
  | inr (x, h) ↦ ground (arith, eq_iff x.tenant_id tenant, h)
]

module _ (json : Json) (fernet : Option Fernet) where
  open json use {Data}

  live-add_step :
      (s : ReplayStore) (id : String) (index : ℕ) (action reasoning url : String)
      (shot : Option String) (extracted : Data) (nonce now : ℕ)
      → (add_step json fernet s id index action reasoning url shot extracted nonce now).live
        ≡ write json fernet s.live (adds id index action reasoning url shot extracted nonce now)
  unfolding add_step write insert_step_row
  live-add_step s id index action reasoning url shot extracted nonce now = ground arith

  read-owned :
      (t : Tables) (id tenant : String) (row : RunRow)
      → get t.runs id ≡ some row
      → row.tenant_id ≡ tenant
      → run_of_tenant t id tenant ≡ some row
  unfolding run_of_tenant
  read-owned t id tenant row h e =
      rw (h, run_of_tenant) (ground (arith, eq_iff row.tenant_id tenant))

  read_screenshot-replaced :
      (t : Tables) (step_row : StepRow) (tenant : String) (row : RunRow)
      → run_of_tenant (replace_step t step_row) step_row.run_id tenant ≡ some row
      → read_screenshot json fernet
          (replace_step t step_row)
          step_row.run_id
          step_row.step_index
          tenant
        ≡ decrypt_screenshot fernet step_row.screenshot
  unfolding read_screenshot
  read_screenshot-replaced t step_row tenant row h =
      rw (keep-replaced t step_row, read_screenshot) (rw h)

  -- After any calls on a new store, a screenshot that is stored for a step of a tenant's run, and that
  -- does not begin with the mark of a ciphertext, is what the tenant reads back for that step, with or
  -- without a key.
  pub screenshot-add_step :
      (cs : List (Call json fernet)) (id tenant : String) (row : RunRow) (index : ℕ)
      (action reasoning url shot : String) (extracted : Data) (nonce now : ℕ)
      → get (call_all json fernet init cs).live.runs id ≡ some row
      → row.tenant_id ≡ tenant
      → after_prefix encrypted_prefix shot ≡ none
      → (get_run_step_screenshot json fernet
          (add_step json fernet
            (call_all json fernet init cs)
            id
            index
            action
            reasoning
            url
            (some shot)
            extracted
            nonce
            now)
          id
          index
          tenant).1
        ≡ some shot
  unfolding get_run_step_screenshot read_screenshot step write
  screenshot-add_step cs id tenant row index action reasoning url shot extracted nonce now h e n =
      let s = call_all json fernet init cs in
      let c : Call json fernet =
        adds id index action reasoning url (some shot) extracted nonce now in
      let v = step-IsValid json fernet s c (call_all-IsValid json fernet cs) in
      let f =
        flush-commits json fernet (step json fernet s c) v
        ∙ live-add_step s id index action reasoning url (some shot) extracted nonce now in
      rw f (
        read_screenshot-replaced s.live _ tenant row
          (read-owned (write json fernet s.live c) id tenant row h e)
        ∙ decrypt-encrypt_screenshot fernet nonce shot n)

  run_of_tenant-other :
      (t : Tables) (id tenant : String) (row : RunRow)
      → get t.runs id ≡ some row
      → row.tenant_id ≢ tenant
      → run_of_tenant t id tenant ≡ none
  unfolding run_of_tenant
  run_of_tenant-other t id tenant row h n =
      rw (h, run_of_tenant) (rw (==_ne row.tenant_id tenant n))

  read_screenshot-none :
      (t : Tables) (id : String) (index : ℕ) (tenant : String)
      → run_of_tenant t id tenant ≡ none
      → read_screenshot json fernet t id index tenant ≡ none
  unfolding read_screenshot
  read_screenshot-none t id index tenant h = ground arith

  read_run-none :
      (t : Tables) (id : String) (include : Bool) (tenant : String)
      → run_of_tenant t id tenant ≡ none
      → read_run json fernet t id include tenant ≡ none
  unfolding read_run
  read_run-none t id include tenant h = rw (h, read_run)

  listed-All :
      (t : Tables) (runs : Dict RunRow) (tenant : String)
      → All (λ l. l.row.tenant_id ≡ tenant) (listed t runs tenant)
  listed-All t [] tenant = tt
  listed-All t ((id, row) ∷ runs) tenant =
      let rest = listed-All t runs tenant in
      elim (Bool-cases (row.tenant_id == tenant)) [
        | inl e ↦ rw e ((eq_iff row.tenant_id tenant).0 e, rest)
        | inr e ↦ rw e rest
      ]

  insert_newest-All :
      (P : ListedRun → Type 0) (l : ListedRun) (ls : List ListedRun)
      → P l
      → All P ls
      → All P (insert_newest l ls)
  unfolding insert_newest
  insert_newest-All P l [] p h = (p, tt)
  insert_newest-All P l (x ∷ ls) p h = ground (arith, insert_newest-All P l ls)

  newest_first-All :
      (P : ListedRun → Type 0) (ls : List ListedRun) → All P ls → All P (newest_first ls)
  unfolding newest_first
  newest_first-All P [] h = tt
  newest_first-All P (l ∷ ls) h =
      insert_newest-All P l (newest_first ls) h.0 (newest_first-All P ls h.1)

  take-All : (P : ListedRun → Type 0) (ls : List ListedRun) (n : ℕ) → All P ls → All P (take ls n)
  take-All P [] n h = tt
  take-All P (l ∷ ls) zero h = tt
  take-All P (l ∷ ls) (suc n) h = (h.0, take-All P ls n h.1)

  -- After any calls on a new store, a tenant who does not own a run reads neither the run nor any of
  -- its screenshots, and every run that a tenant lists is one of the tenant's own.
  pub tenants_apart :
      (cs : List (Call json fernet)) (id tenant : String) (row : RunRow) (include : Bool)
      (index limit : ℕ)
      → get (call_all json fernet init cs).live.runs id ≡ some row
      → row.tenant_id ≢ tenant
      → let s = call_all json fernet init cs in
        ((get_run json fernet s id include tenant).1 ≡ none)
        × ((get_run_step_screenshot json fernet s id index tenant).1 ≡ none)
        × All (λ l. l.row.tenant_id ≡ tenant) (list_runs s limit tenant).1
  unfolding get_run get_run_step_screenshot list_runs read_run
  tenants_apart cs id tenant row include index limit h n =
      let s = call_all json fernet init cs in
      let f = flush-commits json fernet s (call_all-IsValid json fernet cs) in
      let none_read = run_of_tenant-other s.live id tenant row h n in
      (
        rw f (read_run-none s.live id include tenant none_read),
        rw f (read_screenshot-none s.live id index tenant none_read),
        rw f (
            take-All _ _ (max 1 limit)
              (newest_first-All _ _ (listed-All s.live s.live.runs tenant))),
      )
