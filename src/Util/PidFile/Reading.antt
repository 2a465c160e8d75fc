-- ===== src/Util/PidFile/Reading.antt =====
-- PIDFile::write, PIDFile::read and PIDFile::isExecuting.
use Prim.Native.String.{◌++◌}
use text.Mathlib.TextPositions.{eq_refl}
use pxp_agent.Base.{
  ◌≡◌, refl, ◌⊎◌, inl, inr, String, Bool, true, false, Option, none, some, sym, ap, arith, ◌∙◌,
  is_blank, Bool-cases, ℤ,
}
use pxp_agent.Exception.{
  Result, ok, err, aborted, ◌>>◌, invalid_argument, out_of_range, std_exception,
}
use pxp_agent.Libraries.{Libraries, FileChecked}
use pxp_agent.Util.Stoi.{stoi, to_string, InRange}
use pxp_agent.Util.Stoi.RoundTrip.{stoi-to_string, StoiOutcome, stoi-StoiOutcome}
use pxp_agent.Util.Process.{Signalled, process_exists}
use pxp_agent.Util.PidFile.{PidFile, write, read, is_executing, read_known, convert, executing}

stoi_blank : (t : String) → is_blank t ≡ true → stoi t ≡ err (invalid_argument "stoi")
unfolding stoi
stoi_blank String.[] h = refl
stoi_blank (String.◌∷◌ c s) h = cc

not_blank : (t : String) (n : ℤ) → stoi t ≡ ok n → is_blank t ≡ false
not_blank t n e = ground (arith, stoi_blank t)

module _ ⦃L : Libraries⦄ where
  open L use {
    Disk, status, status-FileChecked, atomic_write_to_file, exists, is_regular_file, file_readable,
    read-write, exists-write,
  }

  read_ok :
      (p : PidFile) (d : Disk) (t : String) (n : ℤ)
      → L.read d p.file_path ≡ some t
      → status d p.file_path ≡ ok tt
      → exists d p.file_path ≡ true
      → is_regular_file d p.file_path ≡ true
      → file_readable d p.file_path ≡ true
      → stoi t ≡ ok n
      → read p d ≡ ok n
  unfolding read read_known
  read_ok p d t n r s x g f e = rw s (ground (arith, not_blank t n e))

  -- A PID that `write` stored in the file is read back, whatever `int` it is, a negative one
  -- included, as long as its status can be determined and it is then a regular and readable file.
  pub read-write_pid :
      (p : PidFile) (d e : Disk) (pid : ℤ)
      → InRange pid
      → write pid p d ≡ ok e
      → status e p.file_path ≡ ok tt
      → is_regular_file e p.file_path ≡ true
      → file_readable e p.file_path ≡ true
      → read p e ≡ ok pid
  unfolding write
  read-write_pid p d e pid h w s g f =
      let w' : atomic_write_to_file d (to_string pid ++ "\n") p.file_path ≡ ok e = ground arith in
      read_ok p e (to_string pid ++ "\n") pid
        (read-write d e _ p.file_path p.file_path w' ∙ rw (eq_refl p.file_path)) s
        (exists-write d e _ p.file_path p.file_path w' ∙ rw (eq_refl p.file_path)) g f
        (stoi-to_string pid h)

  -- The file is there, regular and readable, with this text.
  abbrev pub Readable : PidFile → Disk → String → Type 0
  Readable p d t =
      (status d p.file_path ≡ ok tt)
      × (exists d p.file_path ≡ true)
      × (is_regular_file d p.file_path ≡ true)
      × (file_readable d p.file_path ≡ true)
      × (L.read d p.file_path ≡ some t)

  -- An answer says whether the file holds the PID of an existing process. An exception is that of
  -- the file system, or the out_of_range of a text that is readable.
  abbrev pub Answers : (ℤ → Signalled) → PidFile → Disk → Result Bool → Type 0
  Answers kill p d (ok b) =
      (b ≡ true
        → (t : String) × (n : ℤ) × Readable p d t
          × (stoi t ≡ ok n)
          × (process_exists kill n ≡ true))
      × ((t : String) (n : ℤ) → Readable p d t → stoi t ≡ ok n → process_exists kill n ≡ b)
  Answers kill p d (err e) =
      (status d p.file_path ≡ err e)
      ⊎ ((t : String) × (w : String) × Readable p d t × (stoi t ≡ err e) × (e ≡ out_of_range w))
  Answers kill p d aborted = ⊥

  module _ (kill : ℤ → Signalled) (p : PidFile) (d : Disk) where
    same_text : {t u : String} → Readable p d u → Readable p d t → u ≡ t
    same_text {t = t} {u = u} k h = let e : some u ≡ some t = sym k.4 ∙ h.4 in cc

    no-Answers :
        ((t : String) (n : ℤ) → Readable p d t → stoi t ≡ ok n → ⊥) → Answers kill p d (ok false)
    no-Answers h = (λ e. cc, λ t n r e. absurd (h t n r e))

    converted-Answers :
        (t : String) (r : Result ℤ)
        → Readable p d t
        → stoi t ≡ r
        → StoiOutcome r
        → Answers kill p d (executing kill (convert r))
    unfolding executing convert
    converted-Answers t (ok n) h e o = (
      λ b. (t, n, h, e, b),
      λ u m k f.
          let same : u ≡ t = same_text k h in
          let m_n : ok m ≡ ok n = sym f ∙ ap stoi same ∙ e in cc,
    )
    converted-Answers t (err (invalid_argument w)) h e o = no-Answers (λ u m k f.
        let same : u ≡ t = same_text k h in
        let bad : ok m ≡ err (invalid_argument w) = sym f ∙ ap stoi same ∙ e in cc)
    converted-Answers t (err (out_of_range w)) h e o = inr (t, w, h, e, refl)
    converted-Answers t (err _) h e o = absurd o
    converted-Answers t aborted h e o = absurd o

    text-Answers :
        (o : Option String)
        → L.read d p.file_path ≡ o
        → exists d p.file_path ≡ true
        → is_regular_file d p.file_path ≡ true
        → file_readable d p.file_path ≡ true
        → status d p.file_path ≡ ok tt
        → Answers kill p d (executing kill (read_known p d))
    unfolding executing read_known
    text-Answers none h x g f s = rw (x, g, f, h) (no-Answers (λ t n k e. cc))
    text-Answers (some t) h x g f s = elim (Bool-cases (is_blank t)) [
      | inr b ↦
          rw (x, g, f, h, b)
            (converted-Answers t (stoi t) (s, x, g, f, h) refl (stoi-StoiOutcome t))
      | inl b ↦
          rw (x, g, f, h, b)
            (no-Answers (λ u n k e.
              let same : u ≡ t = same_text k (s, x, g, f, h) in
              let blank : is_blank u ≡ true = ap is_blank same ∙ b in
              let full : is_blank u ≡ false = not_blank u n e in cc))
    ]

    known-Answers :
        status d p.file_path ≡ ok tt → Answers kill p d (executing kill (read_known p d))
    unfolding executing read_known
    known-Answers s = elim (Bool-cases (exists d p.file_path)) [
      | inr x ↦ rw x (no-Answers (λ t n k e. cc))
      | inl x ↦ elim (Bool-cases (is_regular_file d p.file_path)) [
        | inr g ↦ rw (x, g) (no-Answers (λ t n k e. cc))
        | inl g ↦ elim (Bool-cases (file_readable d p.file_path)) [
          | inr f ↦ rw (x, g, f) (no-Answers (λ t n k e. cc))
          | inl f ↦ text-Answers _ refl x g f s
        ]
      ]
    ]

    status-Answers :
        (s : Result (Unit {0}))
        → status d p.file_path ≡ s
        → FileChecked s
        → Answers kill p d (executing kill (s >> read_known p d))
    unfolding executing
    status-Answers (ok u) h k = known-Answers h
    status-Answers (err (std_exception w)) h k = inl h
    status-Answers (err _) h k = absurd k
    status-Answers aborted h k = absurd k

    pub is_executing-Answers : Answers kill p d (is_executing kill p d)
    unfolding is_executing read
    is_executing-Answers =
        status-Answers (status d p.file_path) refl (status-FileChecked d p.file_path)
