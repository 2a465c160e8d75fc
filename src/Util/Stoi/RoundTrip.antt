-- ===== src/Util/Stoi/RoundTrip.antt =====
-- std::stoi reads back what std::to_string writes.
use Prim.Native.Nat.{◌/◌}
use Prim.Native.Char.{code}
use Prim.Native.String.{◌++◌}
use text.Mathlib.TextLemmas.{cons-append}
use pxp_agent.Base.{
  ℕ, zero, suc, ◌+◌, ◌*◌, ◌%◌, ◌<◌, ◌≡◌, refl, String, Bool, true, false, arith, ◌∙◌, ap, inl, inr,
  if_elim, nat_eq, Bool-cases, ltb, ℤ, pos, negsuc,
}
use pxp_agent.Exception.{Result, ok, err, invalid_argument, out_of_range}
use pxp_agent.Util.Stoi.{
  int_limit, is_digit, skip_spaces, digits_value, starts_with_digit, to_int, unsigned, signed, stoi,
  digit_char, decimal, to_string, InRange,
}

code-digit_char : (d : ℕ) → d < 10 → code (digit_char d) ≡ 48 + d
unfolding digit_char
code-digit_char zero h = refl
code-digit_char (suc zero) h = refl
code-digit_char (suc (suc zero)) h = refl
code-digit_char (suc (suc (suc zero))) h = refl
code-digit_char (suc (suc (suc (suc zero)))) h = refl
code-digit_char (suc (suc (suc (suc (suc zero))))) h = refl
code-digit_char (suc (suc (suc (suc (suc (suc zero)))))) h = refl
code-digit_char (suc (suc (suc (suc (suc (suc (suc zero))))))) h = refl
code-digit_char (suc (suc (suc (suc (suc (suc (suc (suc zero)))))))) h = refl
code-digit_char (suc (suc (suc (suc (suc (suc (suc (suc (suc zero))))))))) h = refl
code-digit_char (suc (suc (suc (suc (suc (suc (suc (suc (suc (suc d)))))))))) h =
    absurd (omega arith)

decimal-append : (f n : ℕ) (s t : String) → decimal f n s ++ t ≡ decimal f n (s ++ t)
unfolding decimal
decimal-append zero n s t = refl
decimal-append (suc f) n s t = elim (Bool-cases (ltb n 10)) [
  | inl e ↦ rw e (cons-append (digit_char n) s t)
  | inr e ↦ rw e (
      decimal-append f (n / 10) (String.◌∷◌ (digit_char (n % 10)) s) t
      ∙ ap (decimal f (n / 10)) (cons-append (digit_char (n % 10)) s t))
]

digits_value-digit :
    (d : ℕ) (s : String) (acc : ℕ)
    → d < 10
    → digits_value (String.◌∷◌ (digit_char d) s) acc ≡ digits_value s (acc * 10 + d)
unfolding digits_value
digits_value-digit d s acc h = rw (code-digit_char d h) (elim (Bool-cases (is_digit (48 + d))) [
  | inl e ↦ rw e (ap (digits_value s) (omega arith))
  | inr e ↦ absurd (ground arith)
])

digits_value-decimal :
    (f n : ℕ) (rest : String) → n < f → digits_value (decimal f n rest) 0 ≡ digits_value rest n
unfolding decimal
digits_value-decimal zero n rest h = absurd (omega arith)
digits_value-decimal (suc f) n rest h = elim (Bool-cases (ltb n 10)) [
  | inl e ↦ rw e (digits_value-digit n rest 0 (ground arith) ∙ ap (digits_value rest) (omega arith))
  | inr e ↦ rw e (
      digits_value-decimal f (n / 10) (String.◌∷◌ (digit_char (n % 10)) rest) (ground arith)
      ∙ digits_value-digit (n % 10) rest (n / 10) (omega arith)
      ∙ ap (digits_value rest) (omega arith))
]

decimal-head :
    (f n : ℕ) (rest : String)
    → n < f
    → (d : ℕ) × (s : String) × (d < 10) × (decimal f n rest ≡ String.◌∷◌ (digit_char d) s)
unfolding decimal
decimal-head zero n rest h = absurd (omega arith)
decimal-head (suc f) n rest h = elim (Bool-cases (ltb n 10)) [
  | inl e ↦ (n, rest, ground arith, rw e)
  | inr e ↦
      let (d, s, lt, q) =
        decimal-head f (n / 10) (String.◌∷◌ (digit_char (n % 10)) rest) (ground arith) in
      (d, s, lt, rw e q)
]

unsigned-digit :
    (negative : Bool) (d : ℕ) (s t : String)
    → d < 10
    → t ≡ String.◌∷◌ (digit_char d) s
    → unsigned negative t ≡ to_int negative (digits_value t 0)
unfolding unsigned starts_with_digit
unsigned-digit negative d s t h e = ground (arith, code-digit_char d h)

signed-digit :
    (d : ℕ) (s t : String)
    → d < 10
    → t ≡ String.◌∷◌ (digit_char d) s
    → signed (skip_spaces t) ≡ unsigned false t
unfolding signed skip_spaces
signed-digit d s t h e = rw e (ground (arith, code-digit_char d h))

unsigned-decimal :
    (negative : Bool) (n : ℕ) → unsigned negative (decimal (suc n) n "" ++ "\n") ≡ to_int negative n
unfolding digits_value
unsigned-decimal negative n =
    let (d, s, lt, e) = decimal-head (suc n) n "\n" (omega arith) in
    rw (decimal-append (suc n) n "" "\n") (
      unsigned-digit negative d s (decimal (suc n) n "\n") lt e
      ∙ ap (to_int negative) (digits_value-decimal (suc n) n "\n" (omega arith)))

stoi-pos : (n : ℕ) → n < int_limit → stoi (to_string (pos n) ++ "\n") ≡ ok (pos n)
unfolding stoi to_string
stoi-pos n h =
    let (d, s, lt, e) = decimal-head (suc n) n "\n" (omega arith) in
    signed-digit d s (decimal (suc n) n "" ++ "\n") lt (decimal-append (suc n) n "" "\n" ∙ e)
    ∙ unsigned-decimal false n
    ∙ ground arith

stoi-negsuc : (n : ℕ) → n < int_limit → stoi (to_string (negsuc n) ++ "\n") ≡ ok (negsuc n)
unfolding stoi to_string
stoi-negsuc n h =
    rw (cons-append "-" (decimal (suc (suc n)) (suc n) "") "\n")
      (unsigned-decimal true (suc n) ∙ ground arith)

-- What std::to_string writes, with a newline at the end, std::stoi reads back, for each `int`.
pub stoi-to_string : (n : ℤ) → InRange n → stoi (to_string n ++ "\n") ≡ ok n
stoi-to_string (pos n) h = stoi-pos n h
stoi-to_string (negsuc n) h = stoi-negsuc n h

-- std::stoi gives a number, or throws one of its two exceptions.
abbrev pub StoiOutcome : Result ℤ → Type 0
StoiOutcome (ok n) = Unit {0}
StoiOutcome (err (invalid_argument w)) = Unit {0}
StoiOutcome (err (out_of_range w)) = Unit {0}
StoiOutcome _ = ⊥

to_int-StoiOutcome : (negative : Bool) (v : ℕ) → StoiOutcome (to_int negative v)
unfolding to_int
to_int-StoiOutcome false v = if_elim StoiOutcome (ltb v int_limit) tt tt
to_int-StoiOutcome true zero = tt
to_int-StoiOutcome true (suc v) = if_elim StoiOutcome (ltb v int_limit) tt tt

unsigned-StoiOutcome : (negative : Bool) (s : String) → StoiOutcome (unsigned negative s)
unfolding unsigned
unsigned-StoiOutcome negative s =
    if_elim StoiOutcome (starts_with_digit s) (to_int-StoiOutcome negative (digits_value s 0)) tt

signed-StoiOutcome : (s : String) → StoiOutcome (signed s)
unfolding signed
signed-StoiOutcome String.[] = tt
signed-StoiOutcome (String.◌∷◌ c s) =
    if_elim StoiOutcome (nat_eq (code c) b'-') (unsigned-StoiOutcome true s) (
      if_elim StoiOutcome (nat_eq (code c) b'+') (unsigned-StoiOutcome false s)
        (unsigned-StoiOutcome false (String.◌∷◌ c s)))

pub stoi-StoiOutcome : (s : String) → StoiOutcome (stoi s)
unfolding stoi
stoi-StoiOutcome s = signed-StoiOutcome (skip_spaces s)
