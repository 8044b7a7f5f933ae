-- ===== src/Audio/Chunker/Tests.antt =====
-- Runs of the chunker, after ui/audio/tests/core.test.ts.
use chanx_kit.Audio.Chunker.{Bytes, Chunker, create, push, push_all}
use chanx_kit.Audio.Chunker.Streams.{IsValid, push_all-push}
use chanx_kit.Prelude.{List, [], arith, refl, ◌∷◌, ◌≡◌, flat}

abbrev chunker : Chunker
chunker = record { size = 4; buffered = 1 ∷ [] }

abbrev blocks : List Bytes
blocks = (2 ∷ 3 ∷ []) ∷ (4 ∷ 5 ∷ 6 ∷ 7 ∷ 8 ∷ 9 ∷ []) ∷ []

chunker-IsValid : IsValid chunker
chunker-IsValid = omega arith

-- 100 ms of 24 kHz mono PCM16 are 4800 bytes.
default_size : (create 24000 100 1).size ≡ 4800
unfolding create
default_size = refl

blocks_chunks : (push_all blocks chunker).0 ≡ (1 ∷ 2 ∷ 3 ∷ 4 ∷ []) ∷ (5 ∷ 6 ∷ 7 ∷ 8 ∷ []) ∷ []
unfolding push_all push
blocks_chunks = refl

push_all-push_example :
    ((push_all blocks chunker).0 ≡ (push (flat blocks) chunker).0)
    × ((push_all blocks chunker).1.buffered ≡ (push (flat blocks) chunker).1.buffered)
push_all-push_example = push_all-push blocks chunker chunker-IsValid
