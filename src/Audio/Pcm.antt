-- ===== src/Audio/Pcm.antt =====
-- `toPcm16` and `fromPcm16` of ui/audio/core.ts. A sample is a fraction, without rounding; a byte is
-- a number. Reading past the end of the bytes throws, here `none`.
pub mod Words
pub mod Streams
pub mod Decoded
mod Tests
use chanx_kit.Audio.Chunker.{Bytes}
use chanx_kit.Prelude.{
  pos, negsuc, some, none, ◌>>=◌, List, Option, [], get_elem?, if◌then◌else◌, length, ltb, min, suc,
  zero, ℕ, ℤ, ◌%◌, ◌*◌, ◌++◌, ◌+ℤ◌, ◌+◌, ◌-◌, ◌/◌, ◌∷◌,
}

-- num / den
pub record Sample : Type 0 where
  pub num : ℤ
  pub den : ℕ

-- `Math.max(-1, Math.min(1, s))`
abbrev pub clamped : Sample → Sample
clamped s = elim s.num [
  | pos n ↦ record s { num = pos (min n s.den) }
  | negsuc n ↦ record s { num = negsuc (min n (s.den - 1)) }
]

-- The 16 bits of what `setInt16` is given, a fraction that is cut off towards 0.
abbrev pub scaled : Sample → ℕ
scaled s = elim s.num [
  | pos n ↦ n * 0x7fff / s.den % 0x10000
  | negsuc n ↦ (0x10000 - suc n * 0x8000 / s.den) % 0x10000
]

unfoldable pub word : Sample → ℕ
word s = scaled (clamped s)

-- A word in little-endian order.
abbrev pub bytes_of : ℕ → Bytes
bytes_of w = w % 0x100 ∷ w / 0x100 ∷ []

unfoldable pub to_pcm16 : List Sample → Bytes
unfolding word
to_pcm16 [] = []
to_pcm16 (s ∷ ss) = bytes_of (word s) ++ to_pcm16 ss

-- The number that 16 bits stand for.
abbrev pub signed : ℕ → ℤ
signed w = if ltb w 0x8000 then pos w else negsuc (0x10000 - w - 1)

abbrev pub join : Option ℕ → Option ℕ → Option ℤ
join (some lo) (some hi) = some (signed (lo + hi * 0x100))
join (some lo) none = none
join none hi = none

-- `view.getInt16(offset, true)`
unfoldable pub get_int16 : Bytes → ℕ → Option ℤ
get_int16 bytes offset = join (get_elem? bytes offset) (get_elem? bytes (offset + 1))

-- The inner loop: the sum over the `count` channels from `channel` on, in parts of 1 / 0x8000.
unfoldable pub sum_channels : ℕ → ℕ → Bytes → ℕ → ℤ → Option ℤ
unfolding get_int16
sum_channels zero first bytes channel sum = some sum
sum_channels (suc count) first bytes channel sum = do
  value ← get_int16 bytes ((first + channel) * 2)
  sum_channels count first bytes (channel + 1) (sum +ℤ value)

-- The outer loop: the `count` frames from `frame` on.
unfoldable pub read_frames : ℕ → ℕ → Bytes → ℕ → Option (List Sample)
unfolding sum_channels
read_frames zero channels bytes frame = some []
read_frames (suc count) channels bytes frame = do
  sum ← sum_channels channels (frame * channels) bytes 0 (pos 0)
  rest ← read_frames count channels bytes (frame + 1)
  some (record { num = sum; den = 0x8000 * channels } ∷ rest)

unfoldable pub from_pcm16 : Bytes → ℕ → Option (List Sample)
unfolding read_frames
from_pcm16 bytes channels = read_frames (length bytes / 2 / channels) channels bytes 0
