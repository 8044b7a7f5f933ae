-- ===== src/Audio/Pcm/Decoded.antt =====
-- Mono PCM16, against a definition that reads two bytes at a time.
use chanx_kit.Audio.Chunker.{Bytes}
use chanx_kit.Audio.Pcm.{
  Sample, from_pcm16, get_int16, read_frames, signed, sum_channels, to_pcm16, word,
}
use chanx_kit.Audio.Pcm.Words.{IsClose, quantised, quantised-IsClose}
use chanx_kit.Prelude.{
  some, All, List, [], ap, arith, drop, length, length-drop, map, refl, suc, sym, zero, zero-+ℤ, ℕ,
  ℤ, ◌%◌, ◌*◌, ◌++◌, ◌+◌, ◌-◌, ◌/◌, ◌<◌, ◌∙◌, ◌∷◌, ◌≡◌,
}

abbrev pub sample_of : ℕ → ℕ → Sample
sample_of lo hi = record { num = signed (lo + hi * 0x100); den = 0x8000 }

abbrev pub decoded : Bytes → List Sample
decoded [] = []
decoded (lo ∷ []) = []
decoded (lo ∷ hi ∷ bytes) = sample_of lo hi ∷ decoded bytes

-- What stands at a whole sample of the bytes.
decoded_step :
    (bytes : Bytes) (n : ℕ)
    → n < length bytes / 2
    → (z : ℤ) × (get_int16 bytes (n * 2) ≡ some z)
      × (decoded (drop (n * 2) bytes)
          ≡ record { num = z; den = 0x8000 } ∷ decoded (drop ((n + 1) * 2) bytes))
unfolding get_int16
decoded_step [] n h = absurd (omega arith)
decoded_step (lo ∷ []) n h = absurd (omega arith)
decoded_step (lo ∷ hi ∷ bytes) zero h = (signed (lo + hi * 0x100), refl, refl)
decoded_step (lo ∷ hi ∷ bytes) (suc n) h =
    let e : suc n * 2 ≡ suc (suc (n * 2)) = omega arith in
    let f : suc (suc (n * 2)) + 1 ≡ suc (suc (n * 2 + 1)) = omega arith in
    let g : (suc n + 1) * 2 ≡ suc (suc ((n + 1) * 2)) = omega arith in
    rw (e, f, g) (decoded_step bytes n (omega arith))

decoded_short : (bytes : Bytes) → length bytes < 2 → decoded bytes ≡ []
decoded_short [] h = refl
decoded_short (lo ∷ []) h = refl
decoded_short (lo ∷ hi ∷ bytes) h = absurd (omega arith)

read_frames-decoded :
    (count frame : ℕ) (bytes : Bytes)
    → frame + count ≡ length bytes / 2
    → read_frames count 1 bytes frame ≡ some (decoded (drop (frame * 2) bytes))
unfolding read_frames sum_channels
read_frames-decoded zero frame bytes h =
    ap some
      (sym (decoded_short (drop (frame * 2) bytes) (omega (arith, length-drop (frame * 2) bytes))))
read_frames-decoded (suc count) frame bytes h =
    let e : (frame * 1 + 0) * 2 ≡ frame * 2 = omega arith in
    let (z, f, g) = decoded_step bytes frame (omega arith) in
    rw (e, f, g, zero-+ℤ, read_frames-decoded count (frame + 1) bytes (omega arith)) refl

-- Mono bytes are read two at a time, the low one first; a last odd byte is left out.
pub from_pcm16-decoded : (bytes : Bytes) → from_pcm16 bytes 1 ≡ some (decoded bytes)
unfolding from_pcm16
from_pcm16-decoded bytes =
    let e : length bytes / 2 / 1 ≡ length bytes / 2 = omega arith in
    rw e (read_frames-decoded (length bytes / 2) 0 bytes (omega arith))

pub decoded-to_pcm16 : (samples : List Sample) → decoded (to_pcm16 samples) ≡ map quantised samples
unfolding to_pcm16
decoded-to_pcm16 [] = refl
decoded-to_pcm16 (s ∷ ss) =
    let w = word s in
    let e : w % 0x100 + w / 0x100 * 0x100 ≡ w = omega arith in rw (e, decoded-to_pcm16 ss) refl

-- A whole number of samples can be read by itself.
pub decoded-append :
    (n : ℕ) (xs ys : Bytes) → length xs ≡ n * 2 → decoded (xs ++ ys) ≡ decoded xs ++ decoded ys
decoded-append n [] ys h = refl
decoded-append n (lo ∷ []) ys h = absurd (omega arith)
decoded-append n (lo ∷ hi ∷ xs) ys h =
    ap (◌∷◌ (sample_of lo hi)) (decoded-append (n - 1) xs ys (omega arith))

abbrev pub IsReal : Sample → Type 0
IsReal s = 0 < s.den

closes : (samples : List Sample) → All IsReal samples → All (λ s. IsClose s (quantised s) 2) samples
closes [] h = tt
closes (s ∷ ss) h = (quantised-IsClose s h.0, closes ss h.1)

-- Samples with a denominator that are written as PCM16 are read back, one for each, and each comes
-- back as a number that is as near to 0 as the clamped sample, or nearer by less than 2 / 0x8000.
pub from_pcm16-to_pcm16 :
    (samples : List Sample)
    → All IsReal samples
    → (from_pcm16 (to_pcm16 samples) 1 ≡ some (map quantised samples))
      × All (λ s. IsClose s (quantised s) 2) samples
from_pcm16-to_pcm16 samples h =
    (from_pcm16-decoded (to_pcm16 samples) ∙ ap some (decoded-to_pcm16 samples), closes samples h)
