-- ===== src/Audio/Pcm/Tests.antt =====
-- Runs of the PCM16 helpers, after ui/audio/tests/core.test.ts.
use chanx_kit.Audio.Chunker.{Bytes, IsByte}
use chanx_kit.Audio.Pcm.{Sample, from_pcm16, get_int16, read_frames, sum_channels, to_pcm16, word}
use chanx_kit.Audio.Pcm.Streams.{IsUnit, from_pcm16_lem}
use chanx_kit.Audio.Pcm.Decoded.{IsReal, from_pcm16-to_pcm16}
use chanx_kit.Audio.Pcm.Words.{IsClose, quantised}
use chanx_kit.Prelude.{pos, negsuc, some, All, List, [], arith, length, map, refl, ◌∷◌, ◌≡◌}

-- 0, 1, -1, 2, 1/2
abbrev samples : List Sample
samples =
    record { num = pos 0; den = 1 }
    ∷ record { num = pos 1; den = 1 }
    ∷ record { num = negsuc 0; den = 1 }
    ∷ record { num = pos 2; den = 1 }
    ∷ record { num = pos 1; den = 2 }
    ∷ []

samples-IsReal : All IsReal samples
samples-IsReal = omega arith

clamps : to_pcm16 samples ≡ 0 ∷ 0 ∷ 255 ∷ 127 ∷ 0 ∷ 128 ∷ 255 ∷ 127 ∷ 255 ∷ 63 ∷ []
unfolding to_pcm16 word
clamps = refl

-- Two channels are mixed down: 1 and 0, then -1 and 0.
abbrev stereo : Bytes
stereo = 255 ∷ 127 ∷ 0 ∷ 0 ∷ 0 ∷ 128 ∷ 0 ∷ 0 ∷ 7 ∷ []

stereo-IsByte : All IsByte stereo
stereo-IsByte = omega arith

mixes :
    from_pcm16 stereo 2
    ≡ some (
        record { num = pos 0x7fff; den = 0x10000 }
        ∷ record { num = negsuc 0x7fff; den = 0x10000 }
        ∷ [])
unfolding from_pcm16 read_frames sum_channels get_int16
mixes = refl

from_pcm16_lem_example :
    (out : List Sample) × (from_pcm16 stereo 2 ≡ some out) × (length out ≡ 2) × All (IsUnit 2) out
from_pcm16_lem_example = from_pcm16_lem stereo 2 stereo-IsByte (omega arith)

from_pcm16-to_pcm16_example :
    (from_pcm16 (to_pcm16 samples) 1 ≡ some (map quantised samples))
    × All (λ s. IsClose s (quantised s) 2) samples
from_pcm16-to_pcm16_example = from_pcm16-to_pcm16 samples samples-IsReal
