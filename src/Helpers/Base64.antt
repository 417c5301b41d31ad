-- ===== src/Helpers/Base64.antt =====
-- Utils::String::imageEncoder (helpers/UtilsString.h). Bytes are numbers below 256; `|` of two
-- numbers without a common bit is their sum.
pub mod RoundTrip
use entservices_inputoutput.Base.{
  ℕ, ◌+◌, ◌*◌, ◌/◌, ◌%◌, Bool, true, false, List, [], ◌∷◌, ◌++◌, if◌then◌else◌, get_or, String,
}
use entservices_inputoutput.HdmiCecSink.Routing.{codes}

-- `base64_chars`.
abbrev pub base64_chars : List ℕ
base64_chars = codes "ABCDEFGHIJKLMNOPQRSTUVWXYZabcdefghijklmnopqrstuvwxyz0123456789+/"

unfoldable pub base64_char : ℕ → ℕ
base64_char i = get_or base64_chars i 0

-- `state`.
pub data EncoderState : Type 0 where
  state_0 state_1 state_2 : EncoderState

-- What follows the loop.
unfoldable pub finish : Bool → EncoderState → (last_stuff : ℕ) → List ℕ
finish padding state_0 last = []
finish padding state_1 last = base64_char last ∷ (if padding then b'=' ∷ b'=' ∷ [] else [])
finish padding state_2 last = base64_char last ∷ (if padding then b'=' ∷ [] else [])

-- The loop: what it appends to the result for the bytes that are left.
unfoldable pub encode_from : Bool → EncoderState → (last_stuff : ℕ) → List ℕ → List ℕ
unfolding finish
encode_from padding state last [] = finish padding state last
encode_from padding state_0 last (b ∷ bs) =
    base64_char (b / 4) ∷ encode_from padding state_1 (b % 4 * 16) bs
encode_from padding state_1 last (b ∷ bs) =
    base64_char (b / 16 + last) ∷ encode_from padding state_2 (b % 16 * 4) bs
encode_from padding state_2 last (b ∷ bs) =
    base64_char (b / 64 + last) ∷ base64_char (b % 64) ∷ encode_from padding state_0 last bs

-- imageEncoder, for the `length` bytes of the object.
unfoldable pub image_encoder : List ℕ → (padding : Bool) → (result : List ℕ) → List ℕ
unfolding encode_from
image_encoder object padding result = result ++ encode_from padding state_0 0 object
