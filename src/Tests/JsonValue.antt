-- ===== src/Tests/JsonValue.antt =====
-- JSON values for the tests, with a text format of their own: a value is written as the steps of a
-- stack machine that builds it.
use Prim.Native.Char.{Char, code}
use Prim.Native.String.{◌++◌}
use package.text.Mathlib.TextLemmas.{cons-append}
use pxp_agent.Base.{
  ℕ, zero, suc, String, Bool, true, false, List, [], ◌∷◌, Option, none, some, ◌≡◌, refl, ap, ◌∙◌,
  if◌then◌else◌, nat_eq, ℤ, pos, negsuc, ◌==◌, is_some, contains, All, eq_iff, arith,
}
use pxp_agent.Libraries.{JsonApi}

-- A member of an object is followed by the other members, and so is an item of an array.
pub data Value : Type 0 where
  null no_members no_items : Value
  text : String → Value
  flag : Bool → Value
  number : ℤ → Value
  member : String → Value → Value → Value
  item : Value → Value → Value

abbrev pub of_items : List Value → Value
of_items [] = no_items
of_items (v ∷ vs) = item v (of_items vs)

abbrev pub as_items : Value → Option (List Value)
as_items no_items = some []
as_items (item v r) = elim (as_items r) [ none ↦ none | some vs ↦ some (v ∷ vs) ]
as_items _ = none

abbrev pub is_object : Value → Bool
is_object no_members = true
is_object (member k v r) = true
is_object _ = false

abbrev pub is_text : Value → Bool
is_text (text s) = true
is_text _ = false

abbrev pub is_flag : Value → Bool
is_flag (flag b) = true
is_flag _ = false

abbrev pub is_integer : Value → Bool
is_integer (number n) = true
is_integer _ = false

abbrev pub keys : Value → List String
keys (member k v r) = k ∷ keys r
keys _ = []

abbrev pub is_no_members : Value → Bool
is_no_members no_members = true
is_no_members _ = false

abbrev pub entry : Value → String → Option Value
entry (member k v r) q = if k == q then some v else entry r q
entry _ q = none

abbrev pub as_text : Value → Option String
as_text (text s) = some s
as_text _ = none

abbrev pub as_flag : Value → Option Bool
as_flag (flag b) = some b
as_flag _ = none

abbrev pub as_number : Value → Option ℤ
as_number (number n) = some n
as_number _ = none

pub as_text-is_text : (v : Value) → is_text v ≡ true → is_some (as_text v) ≡ true
as_text-is_text (text s) h = refl
as_text-is_text (flag b) h = cc
as_text-is_text (number n) h = cc
as_text-is_text null h = cc
as_text-is_text no_members h = cc
as_text-is_text no_items h = cc
as_text-is_text (member k v r) h = cc
as_text-is_text (item v r) h = cc

pub as_flag-is_flag : (v : Value) → is_flag v ≡ true → is_some (as_flag v) ≡ true
as_flag-is_flag (flag b) h = refl
as_flag-is_flag (text s) h = cc
as_flag-is_flag (number n) h = cc
as_flag-is_flag null h = cc
as_flag-is_flag no_members h = cc
as_flag-is_flag no_items h = cc
as_flag-is_flag (member k v r) h = cc
as_flag-is_flag (item v r) h = cc

entry_member :
    (k q : String) (v r : Value)
    → is_some (entry r q) ≡ true
    → is_some (entry (member k v r) q) ≡ true
entry_member k q v r h = ground (arith, h)

entries :
    (v r : Value) (k : String) (qs : List String)
    → All (λ q. is_some (entry r q) ≡ true) qs
    → All (λ q. is_some (entry (member k v r) q) ≡ true) qs
entries v r k [] h = tt
entries v r k (q ∷ qs) h = (entry_member k q v r h.0, entries v r k qs h.1)

pub entry-keys : (v : Value) → All (λ q. is_some (entry v q) ≡ true) (keys v)
entry-keys (member k v r) = (ground (arith, eq_iff k k), entries v r k (keys r) (entry-keys r))
entry-keys (text s) = tt
entry-keys (flag b) = tt
entry-keys (number n) = tt
entry-keys null = tt
entry-keys no_members = tt
entry-keys no_items = tt
entry-keys (item v r) = tt

pub contains-keys :
    (v : Value) (q : String) → is_some (entry v q) ≡ true → contains q (keys v) ≡ true
contains-keys (member k v r) q h = ground (arith, contains-keys r q)
contains-keys (text s) q h = cc
contains-keys (flag b) q h = cc
contains-keys (number n) q h = cc
contains-keys null q h = cc
contains-keys no_members q h = cc
contains-keys no_items q h = cc
contains-keys (item v r) q h = cc

pub no_double : (v : Value) → false ≡ true → false ≡ true
no_double v h = h

-- The steps that build a value, before the text `k`.
emit_text : String → String → String
emit_text String.[] k = String.◌∷◌ "\"" k
emit_text (String.◌∷◌ c s) k = emit_text s (String.◌∷◌ "\\" (String.◌∷◌ c k))

emit_count : Char → ℕ → String → String
emit_count start zero k = String.◌∷◌ start k
emit_count start (suc n) k = emit_count start n (String.◌∷◌ "+" k)

emit : Value → String → String
unfolding emit_text emit_count
emit null k = String.◌∷◌ "n" k
emit no_members k = String.◌∷◌ "{" k
emit no_items k = String.◌∷◌ "[" k
emit (text s) k = emit_text s k
emit (flag true) k = String.◌∷◌ "t" k
emit (flag false) k = String.◌∷◌ "f" k
emit (number (pos n)) k = emit_count "0" n k
emit (number (negsuc n)) k = emit_count "-" n k
emit (member q v r) k = emit r (emit_text q (emit v (String.◌∷◌ ":" k)))
emit (item v r) k = emit r (emit v (String.◌∷◌ "," k))

increment : List Value → List Value
increment (number (pos n) ∷ s) = number (pos (suc n)) ∷ s
increment (number (negsuc n) ∷ s) = number (negsuc (suc n)) ∷ s
increment s = s

add_member : List Value → List Value
add_member (v ∷ text q ∷ r ∷ s) = member q v r ∷ s
add_member s = s

add_item : List Value → List Value
add_item (v ∷ r ∷ s) = item v r ∷ s
add_item s = s

add_character : Char → List Value → List Value
add_character c (text t ∷ s) = text (String.◌∷◌ c t) ∷ s
add_character c s = s

step : ℕ → List Value → List Value
unfolding increment add_member add_item
step c s =
    if nat_eq c b'n'
    then null ∷ s
    else if nat_eq c b'{'
    then no_members ∷ s
    else if nat_eq c b'['
    then no_items ∷ s
    else if nat_eq c b'"'
    then text "" ∷ s
    else if nat_eq c b't'
    then flag true ∷ s
    else if nat_eq c b'f'
    then flag false ∷ s
    else if nat_eq c b'0'
    then number (pos 0) ∷ s
    else if nat_eq c b'-'
    then number (negsuc 0) ∷ s
    else if nat_eq c b'+'
    then increment s
    else if nat_eq c b':'
    then add_member s
    else if nat_eq c b','
    then add_item s
    else s

top : List Value → Option Value
top (v ∷ []) = some v
top _ = none

-- The second argument is true after a backslash.
run : String → Bool → List Value → Option Value
unfolding step top add_character
run String.[] escaped s = top s
run (String.◌∷◌ c t) true s = run t false (add_character c s)
run (String.◌∷◌ c t) false s = let next = run t (nat_eq (code c) b'\\') (step (code c) s) in next

emit_text-run :
    (q : String) (k : String) (s : List Value)
    → run (emit_text q k) false s ≡ run k false (text q ∷ s)
unfolding emit_text run step
emit_text-run String.[] k s = refl
emit_text-run (String.◌∷◌ c q) k s = emit_text-run q (String.◌∷◌ "\\" (String.◌∷◌ c k)) s

emit_pos-run :
    (n : ℕ) (k : String) (s : List Value)
    → run (emit_count "0" n k) false s ≡ run k false (number (pos n) ∷ s)
unfolding emit_count run step increment
emit_pos-run zero k s = refl
emit_pos-run (suc n) k s = emit_pos-run n (String.◌∷◌ "+" k) s

emit_negsuc-run :
    (n : ℕ) (k : String) (s : List Value)
    → run (emit_count "-" n k) false s ≡ run k false (number (negsuc n) ∷ s)
unfolding emit_count run step increment
emit_negsuc-run zero k s = refl
emit_negsuc-run (suc n) k s = emit_negsuc-run n (String.◌∷◌ "+" k) s

emit-run : (v : Value) (k : String) (s : List Value) → run (emit v k) false s ≡ run k false (v ∷ s)
unfolding emit run step add_member add_item
emit-run null k s = refl
emit-run no_members k s = refl
emit-run no_items k s = refl
emit-run (text t) k s = emit_text-run t k s
emit-run (flag true) k s = refl
emit-run (flag false) k s = refl
emit-run (number (pos n)) k s = emit_pos-run n k s
emit-run (number (negsuc n)) k s = emit_negsuc-run n k s
emit-run (member q v r) k s =
    emit-run r _ s
    ∙ emit_text-run q (emit v (String.◌∷◌ ":" k)) (r ∷ s)
    ∙ emit-run v (String.◌∷◌ ":" k) (text q ∷ r ∷ s)
emit-run (item v r) k s = emit-run r _ s ∙ emit-run v (String.◌∷◌ "," k) (r ∷ s)

emit_text-append : (q k t : String) → emit_text q k ++ t ≡ emit_text q (k ++ t)
unfolding emit_text
emit_text-append String.[] k t = cons-append "\"" k t
emit_text-append (String.◌∷◌ c q) k t =
    emit_text-append q (String.◌∷◌ "\\" (String.◌∷◌ c k)) t
    ∙ ap (emit_text q)
        (cons-append "\\" (String.◌∷◌ c k) t ∙ ap (String.◌∷◌ "\\") (cons-append c k t))

emit_count-append :
    (c : Char) (n : ℕ) (k t : String) → emit_count c n k ++ t ≡ emit_count c n (k ++ t)
unfolding emit_count
emit_count-append c zero k t = cons-append c k t
emit_count-append c (suc n) k t =
    emit_count-append c n (String.◌∷◌ "+" k) t ∙ ap (emit_count c n) (cons-append "+" k t)

emit-append : (v : Value) (k t : String) → emit v k ++ t ≡ emit v (k ++ t)
unfolding emit
emit-append null k t = cons-append "n" k t
emit-append no_members k t = cons-append "{" k t
emit-append no_items k t = cons-append "[" k t
emit-append (text s) k t = emit_text-append s k t
emit-append (flag true) k t = cons-append "t" k t
emit-append (flag false) k t = cons-append "f" k t
emit-append (number (pos n)) k t = emit_count-append "0" n k t
emit-append (number (negsuc n)) k t = emit_count-append "-" n k t
emit-append (member q v r) k t =
    emit-append r _ t
    ∙ ap (emit r) (
        emit_text-append q (emit v (String.◌∷◌ ":" k)) t
        ∙ ap (emit_text q) (emit-append v (String.◌∷◌ ":" k) t ∙ ap (emit v) (cons-append ":" k t)))
emit-append (item v r) k t =
    emit-append r _ t
    ∙ ap (emit r) (emit-append v (String.◌∷◌ "," k) t ∙ ap (emit v) (cons-append "," k t))

unfoldable pub parse : String → Option Value
unfolding run
parse t = run t false []

unfoldable pub to_string : Value → String
unfolding emit
to_string v = emit v ""

pub parse-to_string : (v : Value) → parse (to_string v ++ "\n") ≡ some v
unfolding parse to_string run step top
parse-to_string v = ap (λ t. run t false []) (emit-append v "" "\n") ∙ emit-run v ("" ++ "\n") []

pub parse_braces : parse "{}" ≡ some no_members
unfolding parse run step top
parse_braces = refl

abbrev pub json_values : JsonApi
json_values = record {
  Json = Value;
  empty = no_members;
  parse = parse;
  parse_failure = λ t. "invalid json: " ++ t;
  to_string = to_string;
  is_empty = is_no_members;
  entry = entry;
  set = λ j k v. member k v j;
  of_text = text;
  of_flag = flag;
  of_number = number;
  of_items = of_items;
  as_text = as_text;
  as_flag = as_flag;
  as_number = as_number;
  as_items = as_items;
  Double = Unit;
  as_double = λ v. none;
  is_object = is_object;
  is_text = is_text;
  is_flag = is_flag;
  is_integer = is_integer;
  is_double = λ v. false;
  keys = keys;
  as_text-is_text = as_text-is_text;
  as_flag-is_flag = as_flag-is_flag;
  as_double-is_double = no_double;
  entry-keys = entry-keys;
  contains-keys = contains-keys;
  parse-braces = parse_braces;
  is_empty-empty = refl;
  entry-empty = λ k. refl;
  entry-set = λ j k q v. refl;
  as_text-of_text = λ s. refl;
  as_flag-of_flag = λ b. refl;
  as_number-of_number = λ n. refl;
  parse-to_string = parse-to_string;
}
