-- ===== src/Configuration/Validation/Directories.antt =====
-- The directories, the test in the spool directory, and the PID file.
use pxp_agent.Base.{
  String, Bool, true, false, some, List, [], ◌∷◌, ◌≡◌, ◌⊎◌, refl, ap, ◌∙◌, is_blank, lookup,
  contains, Bool-cases, inl, inr, arith, if◌then◌else◌, eq_iff, ◌==◌, sym,
}
use pxp_agent.Exception.Stateful.{Post}
use pxp_agent.Libraries.{Libraries}
use pxp_agent.Configuration.{string, string_value, Configuration, HorseWhisperer, option_types}
use pxp_agent.Configuration.Validation.{check_directory, normalize, normalize_value, unused_path}
use pxp_agent.Configuration.Validation.Frame.{
  Checks, guarded-Checks, Before, Failed, Only, check-Post, string-Post, set_flag-Last,
}

module _ ⦃L : Libraries⦄ ⦃H : HorseWhisperer⦄ where
  open L use {
    Disk, status, status-FileChecked, exists, is_directory, is_regular_file, create_directories,
    created, remove_all, slash, parent_path, tilde_expand, create_directories-FileChecked,
    remove_all-FileChecked,
  }
  open H use {get}

  -- The directory of an option: none, or one that is there.
  abbrev pub DirectoryIn : Disk → String → Configuration → Type 0
  DirectoryIn d n c =
      (s : String) × (get c.flags n ≡ some (string_value s))
      × ((is_blank s ≡ true) ⊎ (is_directory d s ≡ true))

  abbrev pub Normalized : Bool → Disk → String → Configuration → Unit {0} → Configuration → Type 0
  Normalized v d n c u e = Before v e × DirectoryIn d n e × Only (n ∷ []) c e

  check_directory-Checks :
      (d : Disk) (option path : String)
      → Checks (λ u. is_directory d path ≡ true) (check_directory d option path)
  unfolding check_directory
  check_directory-Checks d option path =
      guarded-Checks (λ u. is_directory d path ≡ true) (status d path) _ (status-FileChecked d path)
        (elim (Bool-cases (exists d path)) [
          | inr x ↦ rw x tt
          | inl x ↦ elim (Bool-cases (is_directory d path)) [
            | inl i ↦ rw (x, i) refl
            | inr i ↦ rw (x, i) tt
          ]
        ])

  normalize_value-Post :
      (v : Bool) (d : Disk) (n s : String) (c : Configuration)
      → lookup n option_types ≡ some string
      → Before v c
      → get c.flags n ≡ some (string_value s)
      → Post (Normalized v d n c) (Failed v) (normalize_value d n s c)
  unfolding normalize_value
  normalize_value-Post v d n s c h b g = elim (Bool-cases (is_blank s)) [
    | inl k ↦ rw k (b, (s, g, inl k), λ q o x. refl)
    | inr k ↦ rw k (
        check-Post (λ u. is_directory d (tilde_expand s) ≡ true) (Normalized v d n c) v
          (check_directory d n (tilde_expand s)) _ c b (check_directory-Checks d n (tilde_expand s))
          (λ u i.
            set_flag-Last (Normalized v d n c) v n (tilde_expand s) c h b
              (λ e b' g' o. (b', (tilde_expand s, g', inr i), o))))
  ]

  pub normalize-Post :
      (v : Bool) (d : Disk) (n : String) (c : Configuration)
      → lookup n option_types ≡ some string
      → Before v c
      → Post (Normalized v d n c) (Failed v) (normalize d n c)
  unfolding normalize
  normalize-Post v d n c h b =
      string-Post (Normalized v d n c) v n (normalize_value d n) c h b
        (λ s g. normalize_value-Post v d n s c h b g)

  -- The path of one of the UUIDs is free.
  abbrev pub Free : Disk → String → List String → Type 0
  Free d dir uuids =
      (uuid : String) × (contains uuid uuids ≡ true) × (exists d (slash dir uuid) ≡ false)

  elsewhere :
      (d : Disk) (dir uuid u : String) (uuids : List String)
      → contains u (uuid ∷ uuids) ≡ true
      → exists d (slash dir uuid) ≡ true
      → exists d (slash dir u) ≡ false
      → contains u uuids ≡ true
  elsewhere d dir uuid u uuids h k x = elim (Bool-cases (uuid == u)) [
    | inl e ↦
        (let t : true ≡ false =
            sym k ∙ ap (λ z. exists d (slash dir z)) ((eq_iff uuid u).0 e) ∙ x in
          cc)
    | inr e ↦ ground arith
  ]

  -- The do-while loop, over the UUIDs that get_UUID gives in turn, ends as soon as the path of
  -- some UUID is free, with the free path of one of the UUIDs.
  pub unused_path-Free :
      (d : Disk) (dir : String) (uuids : List String)
      → Free d dir uuids
      → (p : String) × (unused_path d dir uuids ≡ some p)
        × (exists d p ≡ false)
        × ((uuid : String) × (contains uuid uuids ≡ true) × (p ≡ slash dir uuid))
  unfolding unused_path
  unused_path-Free d dir [] (u, h, x) = cc
  unused_path-Free d dir (uuid ∷ uuids) (u, h, x) = elim (Bool-cases (exists d (slash dir uuid))) [
    | inr k ↦ (
      slash dir uuid,
      ap (λ b. if b then unused_path d dir uuids else some (slash dir uuid)) k,
      k,
      (uuid, ground (arith, eq_iff uuid uuid), refl),
    )
    | inl k ↦
        let (p, e, f, (w, m, q)) =
          unused_path-Free d dir uuids (u, elsewhere d dir uuid u uuids h k x, x) in
        (
          p,
          ap (λ b. if b then unused_path d dir uuids else some (slash dir uuid)) k ∙ e,
          f,
          (w, ground (arith, m), q),
        )
  ]
