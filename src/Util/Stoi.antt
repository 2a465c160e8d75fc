-- ===== src/Util/Stoi.antt =====
-- std::stoi and std::to_string on an `int` of 32 bits, as the PID files use them.
pub mod RoundTrip
use Prim.Native.Nat.{◌/◌}
use Prim.Native.Char.{Char, code}
use Prim.Native.String.{◌++◌}
use pxp_agent.Base.{
  ℕ, zero, suc, ◌+◌, ◌-◌, ◌*◌, ◌%◌, ◌<◌, ◌≡◌, refl, String, Bool, true, false, ◌&&◌, ◌||◌, arith,
  ◌∙◌, ap, inl, inr, Bool-cases, ltb, leb, nat_eq, if◌then◌else◌, ℤ, pos, negsuc,
}
use pxp_agent.Exception.{Result, ok, err, invalid_argument, out_of_range}

abbrev pub int_limit : ℕ
int_limit = 2147483648

abbrev is_digit : ℕ → Bool
is_digit c = leb 48 c && leb c 57

-- isspace in the C locale
abbrev is_space : ℕ → Bool
is_space c = nat_eq c 32 || leb 9 c && leb c 13

skip_spaces : String → String
skip_spaces String.[] = ""
skip_spaces (String.◌∷◌ c s) =
    let rest = skip_spaces s in if is_space (code c) then rest else String.◌∷◌ c s

-- The value of the digits that the text begins with, after those that give `acc`.
digits_value : String → ℕ → ℕ
digits_value String.[] acc = acc
digits_value (String.◌∷◌ c s) acc =
    let rest = digits_value s (acc * 10 + (code c - 48)) in if is_digit (code c) then rest else acc

starts_with_digit : String → Bool
starts_with_digit String.[] = false
starts_with_digit (String.◌∷◌ c s) = is_digit (code c)

to_int : Bool → ℕ → Result ℤ
to_int false v = if ltb v int_limit then ok (pos v) else err (out_of_range "stoi")
to_int true zero = ok (pos 0)
to_int true (suc v) = if ltb v int_limit then ok (negsuc v) else err (out_of_range "stoi")

unsigned : Bool → String → Result ℤ
unsigned negative s =
    if starts_with_digit s
    then to_int negative (digits_value s 0)
    else err (invalid_argument "stoi")

signed : String → Result ℤ
signed String.[] = err (invalid_argument "stoi")
signed (String.◌∷◌ c s) =
    if nat_eq (code c) b'-'
    then unsigned true s
    else if nat_eq (code c) b'+'
    then unsigned false s
    else unsigned false (String.◌∷◌ c s)

unfoldable pub stoi : String → Result ℤ
unfolding skip_spaces digits_value starts_with_digit to_int unsigned signed
stoi s = signed (skip_spaces s)

digit_char : ℕ → Char
digit_char zero = "0"
digit_char (suc zero) = "1"
digit_char (suc (suc zero)) = "2"
digit_char (suc (suc (suc zero))) = "3"
digit_char (suc (suc (suc (suc zero)))) = "4"
digit_char (suc (suc (suc (suc (suc zero))))) = "5"
digit_char (suc (suc (suc (suc (suc (suc zero)))))) = "6"
digit_char (suc (suc (suc (suc (suc (suc (suc zero))))))) = "7"
digit_char (suc (suc (suc (suc (suc (suc (suc (suc zero)))))))) = "8"
digit_char _ = "9"

-- The digits of `n`, before `rest`; one round of fuel for each digit, and `n + 1` rounds suffice.
decimal : ℕ → ℕ → String → String
decimal zero n rest = rest
decimal (suc f) n rest =
    let more = decimal f (n / 10) (String.◌∷◌ (digit_char (n % 10)) rest) in
    if ltb n 10 then String.◌∷◌ (digit_char n) rest else more

unfoldable pub to_string : ℤ → String
unfolding digit_char decimal
to_string (pos n) = decimal (suc n) n ""
to_string (negsuc n) = String.◌∷◌ "-" (decimal (suc (suc n)) (suc n) "")

-- The values of an `int`.
abbrev pub InRange : ℤ → Type 0
InRange (pos n) = n < int_limit
InRange (negsuc n) = n < int_limit
