-- ===== src/Audio/Resampler/Tests.antt =====
-- Runs of the resampler, after ui/audio/tests/core.test.ts, on samples that are whole numbers.
use chanx_kit.Audio.Resampler.{create, process, process_all, resample, walk}
use chanx_kit.Audio.Resampler.Blocks.{
  IsValid, create-IsValid, length-process_all, process_all-process,
}
use chanx_kit.Audio.Resampler.Lines.{get_elem?-process_all}
use chanx_kit.Audio.Resampler.Walks.{walk_stops}
use chanx_kit.Prelude.{
  List, [], arith, get_elem?, length, refl, some, ℕ, ◌*◌, ◌+◌, ◌-◌, ◌/◌, ◌<◌, ◌∷◌, ◌≡◌, ◌≢◌, ◌≤◌,
}

abbrev line : ℕ → ℕ → ℕ → ℕ → ℕ
line a b n d = (a * (d - n) + b * n) / d

abbrev whole : List ℕ
whole = 0 ∷ 30 ∷ 60 ∷ 90 ∷ 120 ∷ 150 ∷ []

abbrev blocks : List (List ℕ)
blocks = (0 ∷ 30 ∷ []) ∷ [] ∷ (60 ∷ 90 ∷ 120 ∷ []) ∷ (150 ∷ []) ∷ []

downsampled : (process_all 0 line blocks (create 0 3 2)).0 ≡ 0 ∷ 45 ∷ 90 ∷ 135 ∷ []
unfolding process_all create process resample walk
downsampled = refl

upsampled : (process 0 line (0 ∷ 30 ∷ 60 ∷ []) (create 0 2 3)).0 ≡ 0 ∷ 20 ∷ 40 ∷ []
unfolding create process resample walk
upsampled = refl

valid : IsValid {A = ℕ} (create 0 3 2)
valid = create-IsValid 0 3 2 (omega arith) (omega arith)

process_all-process_example :
    process_all 0 line blocks (create 0 3 2) ≡ process 0 line whole (create 0 3 2)
process_all-process_example = process_all-process 0 line blocks (create 0 3 2) valid

length-process_all_example :
    (length (process_all 0 line blocks (create 0 3 2)).0 * 3 < 6 * 2 + 3)
    × (6 * 2 ≤ length (process_all 0 line blocks (create 0 3 2)).0 * 3 + 2)
length-process_all_example = length-process_all 0 line blocks 3 2 (omega arith) (omega arith)

long_enough : 1 < length (process_all 0 line blocks (create 0 3 2)).0
unfolding process_all create process resample walk
long_enough = omega arith

differ : ◌≢◌ {A = ℕ} 3 2
differ e = omega arith

get_elem?-process_all_example :
    (x : ℕ) × (y : ℕ) × (get_elem? whole 1 ≡ some x)
    × (get_elem? whole 2 ≡ some y)
    × (get_elem? (process_all 0 line blocks (create 0 3 2)).0 1 ≡ some (line x y 1 2))
get_elem?-process_all_example =
    get_elem?-process_all 0 line blocks 3 2 1 (omega arith) (omega arith) differ long_enough

walk_stops_example :
    (12 ≤ (walk 0 line 12 3 2 0 whole 2).1)
    × ((walk 0 line 12 3 2 0 whole 2).1 ≡ 2 + length (walk 0 line 12 3 2 0 whole 2).0 * 3)
    × ((walk 0 line 12 3 2 0 whole 2).1 < 15)
walk_stops_example = walk_stops 0 line 3 2 12 0 whole 2 (omega arith) (omega arith)
