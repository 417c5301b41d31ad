-- ===== src/AvOutput/Text.antt =====
-- The texts that the plugin takes apart and puts together: lists of names with commas between them,
-- and numbers. A text is the list of its character codes.
pub mod Lists
pub mod Numbers
use entservices_inputoutput.Base.{
  ℕ, zero, suc, ◌+◌, ◌-◌, ◌*◌, ◌/◌, ◌%◌, ℤ, pos, negsuc, Bool, true, false, not, ◌&&◌, Option, none,
  some, List, [], ◌∷◌, ◌++◌, ◌==◌, if◌then◌else◌, leb, ltb,
}

abbrev pub Name : Type 0
Name = List ℕ

abbrev pub same_name : Name → Name → Bool
same_name [] [] = true
same_name [] (d ∷ ds) = false
same_name (c ∷ cs) [] = false
same_name (c ∷ cs) (d ∷ ds) = c == d && same_name cs ds

-- The rest of a computation that may give nothing.
infixl 5 ◌>>=◌
abbrev pub ◌>>=◌ {ℓ κ} : {A : Type ℓ} {B : Type κ} → Option A → (A → Option B) → Option B
none >>= f = none
some a >>= f = f a

abbrev pub is_empty {ℓ} : {A : Type ℓ} → List A → Bool
is_empty [] = true
is_empty (x ∷ xs) = false

abbrev pub comma : ℕ
comma = b','

-- The character in front of the first token.
abbrev pub in_front : ℕ → List Name → List Name
in_front c [] = (c ∷ []) ∷ []
in_front c (t ∷ ts) = (c ∷ t) ∷ ts

-- `while (getline(stream, token, ','))`: a comma ends a token, an empty one too, and nothing follows
-- the last comma.
unfoldable pub split : Name → List Name
split [] = []
split (c ∷ cs) = let rest = split cs in if c == comma then [] ∷ rest else in_front c rest

abbrev pub starts_token : Name → Bool
starts_token [] = false
starts_token (c ∷ cs) = not (c == comma)

-- `while (token = strtok_r(text, ",", &text))`: the tokens that are not empty.
unfoldable pub strtok : Name → List Name
strtok [] = []
strtok (c ∷ cs) =
    let rest = strtok cs in
    if c == comma then rest else if starts_token cs then in_front c rest else (c ∷ []) ∷ rest

-- convertToString: accumulate, from the text that is there already.
unfoldable pub join_onto : Name → List Name → Name
join_onto a [] = a
join_onto a (b ∷ bs) = join_onto (if is_empty a then b else a ++ comma ∷ b) bs

abbrev pub convert_to_string : List Name → Name
convert_to_string names = join_onto [] names

-- The loop of parsingSetInputArgument over one array of names.
unfoldable pub append_names : Name → List Name → Name
append_names text [] = text
append_names text (n ∷ []) = text ++ n
append_names text (n ∷ m ∷ ms) = append_names (text ++ n ++ comma ∷ []) (m ∷ ms)

-- The decimal digits of a number below 10 ^ k.
unfoldable pub decimal : (k n : ℕ) → Name
decimal zero n = []
decimal (suc k) n = elim (ltb n 10) [
  | true ↦ (b'0' + n) ∷ []
  | false ↦ decimal k (n / 10) ++ (b'0' + n % 10) ∷ []
]

-- `std::to_string` of an int, which has ten digits at most.
unfoldable pub to_string : ℤ → Name
unfolding decimal
to_string (pos n) = decimal 10 n
to_string (negsuc n) = b'-' ∷ decimal 10 (suc n)

abbrev pub is_digit : ℕ → Bool
is_digit c = leb b'0' c && leb c b'9'

-- The value of the digits that the text begins with.
unfoldable pub value_onto : ℕ → Name → ℕ
value_onto v [] = v
value_onto v (c ∷ cs) = elim (is_digit c) [ true ↦ value_onto (v * 10 + (c - b'0')) cs | false ↦ v ]

unfoldable pub magnitude : Name → Option ℕ
unfolding value_onto
magnitude [] = none
magnitude (c ∷ cs) = if is_digit c then some (value_onto 0 (c ∷ cs)) else none

abbrev is_space : ℕ → Bool
is_space c = if c == b' ' then true else leb 9 c && leb c 13

unfoldable pub skip_spaces : Name → Name
skip_spaces [] = []
skip_spaces (c ∷ cs) = let rest = skip_spaces cs in if is_space c then rest else c ∷ cs

abbrev pub positive : Option ℕ → Option ℤ
positive none = none
positive (some n) = if leb n 2147483647 then some (pos n) else none

abbrev pub negative : Option ℕ → Option ℤ
negative none = none
negative (some zero) = some (pos 0)
negative (some (suc n)) = if leb n 2147483647 then some (negsuc n) else none

abbrev pub signed : Name → Option ℤ
signed [] = none
signed (c ∷ cs) =
    if c == b'-'
    then negative (magnitude cs)
    else if c == b'+'
    then positive (magnitude cs)
    else positive (magnitude (c ∷ cs))

-- `std::stoi`; `none` is its exception.
unfoldable pub stoi : Name → Option ℤ
unfolding skip_spaces magnitude
stoi text = signed (skip_spaces text)
