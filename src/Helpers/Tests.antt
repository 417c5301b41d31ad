-- ===== src/Helpers/Tests.antt =====
-- The encoder on two bytes, which leave a group that is padded.
use entservices_inputoutput.Base.{ℕ, ◌≡◌, true, some, List, [], ◌∷◌, arith}
use entservices_inputoutput.Helpers.Base64.{image_encoder}
use entservices_inputoutput.Helpers.Base64.RoundTrip.{decode, decode-image_encoder}

abbrev two_bytes : List ℕ
two_bytes = 0x1E ∷ 0xFF ∷ []

decode-image_encoder_example : decode (image_encoder two_bytes true []) ≡ some two_bytes
decode-image_encoder_example = decode-image_encoder two_bytes (omega arith, (omega arith, tt))
