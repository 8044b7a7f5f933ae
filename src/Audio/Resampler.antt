-- ===== src/Audio/Resampler.antt =====
-- The class `Resampler` of ui/audio/core.ts. A sample is a value of any type, `silence` the number
-- 0, and `between a b n d` is `a + (b - a) * (n / d)`. A position is counted from the last sample of
-- the block before, in parts of which an input sample has `to`: the program's `position` is
-- `position / to - 1`, without rounding, and its `step` is `from`. The loop takes the number of
-- parts in a block as fuel.
pub mod Points
pub mod Walks
pub mod Blocks
pub mod Lines
pub mod Fractions
mod Tests
use chanx_kit.Prelude.{
  List, [], eqb, if◌then◌else◌, length, ltb, suc, zero, ℕ, ◌%◌, ◌*◌, ◌++◌, ◌+◌, ◌-◌, ◌/◌, ◌∷◌,
}

pub record Resampler (A : Type 0) : Type 0 where
  pub from : ℕ
  pub to : ℕ
  pub position : ℕ
  pub last : A

module _ {A : Type 0} (silence : A) where
  unfoldable pub create : ℕ → ℕ → Resampler A
  create from to = record { from = from; to = to; position = to; last = silence }

  -- `input[index] ?? 0`
  abbrev pub element : List A → ℕ → A
  element [] index = silence
  element (x ∷ xs) zero = x
  element (x ∷ xs) (suc index) = element xs index

  -- `sample`, at an index that is counted from the block before.
  abbrev pub sample : A → List A → ℕ → A
  sample last input zero = last
  sample last input (suc index) = element input index

  -- The last sample of a block, or of the block before if it is empty.
  abbrev pub last_of : A → List A → A
  last_of last input = if ltb 0 (length input) then element input (length input - 1) else last

module _ {A : Type 0} (silence : A) (between : A → A → ℕ → ℕ → A) where
  -- What one round of the loop puts out.
  abbrev pub point : ℕ → A → List A → ℕ → A
  point to last input position =
      let index = position / to in
      between (sample silence last input index) (sample silence last input (index + 1))
        (position % to) to

  -- The loop: what it puts out, and the position where it stops.
  unfoldable pub walk : ℕ → ℕ → ℕ → A → List A → ℕ → List A × ℕ
  walk zero from to last input position = ([], position)
  walk (suc fuel) from to last input position =
      let rest = walk fuel from to last input (position + from) in
      if ltb position (length input * to)
      then (point to last input position ∷ rest.0, rest.1)
      else ([], position)

  -- What `process` does when the rates differ.
  unfoldable pub resample : List A → Resampler A → List A × Resampler A
  unfolding walk
  resample input r =
      let (out, position) = walk (length input * r.to) r.from r.to r.last input r.position in
      (
        out,
        record r { position = position - length input * r.to; last = last_of silence r.last input },
      )

  unfoldable pub process : List A → Resampler A → List A × Resampler A
  unfolding resample
  process input r = if eqb r.from r.to then (input, r) else resample input r

  -- The blocks of a stream, in order, with all that is put out.
  unfoldable pub process_all : List (List A) → Resampler A → List A × Resampler A
  unfolding process
  process_all [] r = ([], r)
  process_all (block ∷ blocks) r =
      let (out, r') = process block r in
      let (more, r'') = process_all blocks r' in (out ++ more, r'')
