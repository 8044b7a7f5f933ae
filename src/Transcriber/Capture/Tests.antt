-- ===== src/Transcriber/Capture/Tests.antt =====
-- Runs of the capture worklet.
use chanx_kit.Transcriber.Capture.{create}
use chanx_kit.Transcriber.Capture.Blocks.{IsCapture, captured, process_all, process_all_lem}
use chanx_kit.Prelude.{List, [], arith, ℕ, ◌∷◌, ◌≡◌}

-- Samples are numbers here, and a frame's value is that of its first channel.
abbrev first : List ℕ → ℕ
first [] = 0
first (a ∷ channels) = a

abbrev inputs : List (List (List ℕ))
inputs = ((1 ∷ 2 ∷ []) ∷ (5 ∷ 6 ∷ []) ∷ []) ∷ [] ∷ ((3 ∷ []) ∷ []) ∷ []

process_all_lem_example :
    IsCapture (process_all first inputs create)
    × (captured (process_all first inputs create) ≡ 1 ∷ 2 ∷ 3 ∷ [])
process_all_lem_example = process_all_lem first inputs create (tt, omega arith)
