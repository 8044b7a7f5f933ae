-- ===== src/Transcriber/Capture.antt =====
-- The class `ChanxCapture` of ui/transcriber/microphone.ts, the worklet that collects what the
-- microphone captures. A sample is a value of any type, and `mean` is the mean of one frame's
-- channels, on floats. All channels of an input have the same length, as Web Audio has them.
pub mod Blocks
mod Tests
use chanx_kit.Prelude.{
  some, none, true, false, List, [], drop, eqb, if◌then◌else◌, length, suc, take, zero, ℕ, ◌++◌,
  ◌∷◌,
}

-- What has been posted, and the first `filled` samples of the buffer.
pub record Capture (A : Type 0) : Type 0 where
  pub buffer : List A
  pub posted : List (List A)

abbrev pub buffer_size : ℕ
buffer_size = 2048

module _ {A : Type 0} where
  abbrev pub create : Capture A
  create = record { buffer = []; posted = [] }

  -- `input[c][i]` for each channel `c`
  abbrev pub frame : ℕ → List (List A) → List A
  frame i [] = []
  frame i (channel ∷ channels) = take 1 (drop i channel) ++ frame i channels

  -- One round of the loop: a sample is stored, and a full buffer is posted.
  unfoldable pub store : A → Capture A → Capture A
  store a c =
      let filled = c.buffer ++ a ∷ [] in
      if eqb (length filled) buffer_size
      then record { buffer = []; posted = c.posted ++ filled ∷ [] }
      else record c { buffer = filled }

  -- The loop from frame `i` on, for `n` frames.
  unfoldable pub store_from : (List A → A) → ℕ → ℕ → List (List A) → Capture A → Capture A
  unfolding store
  store_from mean i zero input c = c
  store_from mean i (suc n) input c =
      store_from mean (suc i) n input (store (mean (frame i input)) c)

  -- `process`, with the channels of the first input; none has come if there is no input.
  unfoldable pub process : (List A → A) → List (List A) → Capture A → Capture A
  unfolding store_from
  process mean [] c = c
  process mean (channel ∷ channels) c = store_from mean 0 (length channel) (channel ∷ channels) c
