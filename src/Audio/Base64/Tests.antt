-- ===== src/Audio/Base64/Tests.antt =====
-- Runs of the encoder, after ui/audio/tests/core.test.ts.
use chanx_kit.Audio.Base64.{from_base64, join_slices, to_base64}
use chanx_kit.Audio.Base64.RoundTrip.{from_base64-to_base64}
use chanx_kit.Audio.Base64.Standard.{newer, older, older-IsBase64}
use chanx_kit.Audio.Chunker.{Bytes, IsByte}
use chanx_kit.Prelude.{All, [], arith, refl, ◌∷◌, ◌≡◌}

abbrev bytes : Bytes
bytes = 0 ∷ 1 ∷ 2 ∷ 255 ∷ []

bytes-IsByte : All IsByte bytes
bytes-IsByte = omega arith

-- AAEC/w==
encoded : to_base64 newer bytes ≡ 0 ∷ 0 ∷ 4 ∷ 2 ∷ 63 ∷ 48 ∷ 64 ∷ 64 ∷ []
unfolding to_base64 join_slices
encoded = refl

from_base64-to_base64_example : from_base64 older (to_base64 older bytes) ≡ bytes
from_base64-to_base64_example = from_base64-to_base64 older bytes older-IsBase64 bytes-IsByte
