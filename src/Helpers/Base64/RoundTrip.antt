-- ===== src/Helpers/Base64/RoundTrip.antt =====
-- What imageEncoder writes decodes to the bytes, by a decoder for RFC 4648.
use entservices_inputoutput.Base.{
  ℕ, zero, suc, ◌+◌, ◌-◌, ◌*◌, ◌/◌, ◌%◌, ◌<◌, ◌≡◌, refl, Bool, true, false, ◌&&◌, not, Option, none,
  some, List, [], ◌∷◌, ◌++◌, if◌then◌else◌, ◌==◌, leb, All, arith,
}
use entservices_inputoutput.Helpers.Base64.{base64_char, state_0, encode_from, image_encoder}

-- The value of a character of the alphabet.
unfoldable pub base64_value : ℕ → Option ℕ
base64_value c =
    if leb b'A' c && leb c b'Z'
    then some (c - b'A')
    else (if leb b'a' c && leb c b'z'
        then some (c - b'a' + 26)
        else (if leb b'0' c && leb c b'9'
            then some (c - b'0' + 52)
            else (if c == b'+' then some 62 else (if c == b'/' then some 63 else none))))

-- The bytes of a group of two, three or four values.
abbrev pub bytes_2 : ℕ → ℕ → List ℕ
bytes_2 w x = (w * 4 + x / 16) ∷ []

abbrev pub bytes_3 : ℕ → ℕ → ℕ → List ℕ
bytes_3 w x y = (w * 4 + x / 16) ∷ (x % 16 * 16 + y / 4) ∷ []

abbrev pub bytes_4 : ℕ → ℕ → ℕ → ℕ → List ℕ
bytes_4 w x y z = (w * 4 + x / 16) ∷ (x % 16 * 16 + y / 4) ∷ (y % 4 * 64 + z) ∷ []

abbrev with_values : Option ℕ → Option ℕ → (ℕ → ℕ → Option (List ℕ)) → Option (List ℕ)
with_values none y f = none
with_values (some x) none f = none
with_values (some x) (some y) f = f x y

abbrev then_bytes : List ℕ → Option (List ℕ) → Option (List ℕ)
then_bytes bs none = none
then_bytes bs (some rest) = some (bs ++ rest)

-- The decoder: groups of four characters, of which the last may end in `=`.
unfoldable pub decode : List ℕ → Option (List ℕ)
decode [] = some []
decode (w ∷ x ∷ y ∷ z ∷ []) =
    if y == b'=' && z == b'='
    then with_values (base64_value w) (base64_value x) (λ a b. some (bytes_2 a b))
    else if z == b'='
    then with_values (base64_value w) (base64_value x)
        (λ a b. with_values (base64_value y) (some 0) (λ c d. some (bytes_3 a b c)))
    else with_values (base64_value w) (base64_value x)
        (λ a b. with_values (base64_value y) (base64_value z) (λ c d. some (bytes_4 a b c d)))
decode (w ∷ x ∷ y ∷ z ∷ v ∷ rest) =
    let tail = decode (v ∷ rest) in
    with_values (base64_value w) (base64_value x) (λ a b.
      with_values (base64_value y) (base64_value z) (λ c d. then_bytes (bytes_4 a b c d) tail))
decode _ = none

-- A finite check, and what it tells of each number below its bound.
all_below : ℕ → (ℕ → Bool) → Bool
all_below zero p = true
all_below (suc n) p = p n && all_below n p

all_below-holds : (n i : ℕ) (p : ℕ → Bool) → all_below n p ≡ true → i < n → p i ≡ true
unfolding all_below
all_below-holds zero i p h l = absurd (omega arith)
all_below-holds (suc n) i p h l = ground (arith, all_below-holds n i p)

abbrev is_value : Option ℕ → ℕ → Bool
is_value none i = false
is_value (some j) i = j == i

abbrev is_good : ℕ → Bool
is_good i = is_value (base64_value (base64_char i)) i && not (base64_char i == b'=')

all_good : all_below 64 is_good ≡ true
unfolding all_below base64_value base64_char
all_good = refl

-- The characters of the alphabet have their places as values, and none is the padding.
value-char :
    (i : ℕ) → i < 64 → (base64_value (base64_char i) ≡ some i) × ((base64_char i == b'=') ≡ false)
value-char i h = ground (arith, all_below-holds 64 i is_good all_good h)

abbrev IsByte : ℕ → Type 0
IsByte b = b < 256

decode-encode_from :
    (last : ℕ) (bs : List ℕ) → All IsByte bs → decode (encode_from true state_0 last bs) ≡ some bs
unfolding encode_from decode
decode-encode_from last [] h = refl
decode-encode_from last (a ∷ []) h =
    ground (arith, value-char (a / 4) (omega (arith, h.0)), value-char (a % 4 * 16) (omega arith))
decode-encode_from last (a ∷ b ∷ []) h = ground (
  arith,
  value-char (a / 4) (omega (arith, h.0)),
  value-char (b / 16 + a % 4 * 16) (omega (arith, h.1.0)),
  value-char (b % 16 * 4) (omega arith),
)
decode-encode_from last (a ∷ b ∷ c ∷ []) h = ground (
  arith,
  value-char (a / 4) (omega (arith, h.0)),
  value-char (b / 16 + a % 4 * 16) (omega (arith, h.1.0)),
  value-char (c / 64 + b % 16 * 4) (omega (arith, h.1.1.0)),
  value-char (c % 64) (omega arith),
)
decode-encode_from last (a ∷ b ∷ c ∷ d ∷ ds) h = ground (
  arith,
  value-char (a / 4) (omega (arith, h.0)),
  value-char (b / 16 + a % 4 * 16) (omega (arith, h.1.0)),
  value-char (c / 64 + b % 16 * 4) (omega (arith, h.1.1.0)),
  value-char (c % 64) (omega arith),
  decode-encode_from (b % 16 * 4) (d ∷ ds) h.1.1.1,
)

-- What imageEncoder appends to an empty result, for bytes and with padding, is read back as these
-- bytes by a decoder that is written from RFC 4648 and not from the encoder.
pub decode-image_encoder :
    (object : List ℕ) → All IsByte object → decode (image_encoder object true []) ≡ some object
unfolding image_encoder
decode-image_encoder object h = decode-encode_from 0 object h
