-- ===== src/Audio/Chunker.antt =====
-- The class `Chunker` of ui/audio/core.ts. A byte is a number; `joined.slice(a, b)` is a `take` of a
-- `drop`. The loop takes the length of what it cuts as fuel: a round takes away at least one byte.
pub mod Cut
pub mod Streams
mod Tests
use chanx_kit.Prelude.{
  ◌<◌, List, Option, [], drop, if◌then◌else◌, leb, length, ltb, max, none, some, suc, take, zero, ℕ,
  ◌*◌, ◌++◌, ◌+◌, ◌-◌, ◌/◌, ◌∷◌,
}

abbrev pub Bytes : Type 0
Bytes = List ℕ

abbrev pub IsByte : ℕ → Type 0
IsByte b = b < 0x100

pub record Chunker : Type 0 where
  pub size : ℕ
  pub buffered : Bytes

-- `Math.round((sampleRate * chunkMs) / 1000)`, half a sample upwards
abbrev pub chunk_samples : ℕ → ℕ → ℕ
chunk_samples sample_rate chunk_ms = (2 * (sample_rate * chunk_ms) + 1000) / 2000

unfoldable pub create : ℕ → ℕ → ℕ → Chunker
create sample_rate chunk_ms channels = record {
  size = max 2 (chunk_samples sample_rate chunk_ms * 2 * channels);
  buffered = [];
}

-- The loop of `push`: the chunks from `offset` on, and the offset where it stops.
unfoldable pub cut : ℕ → ℕ → Bytes → ℕ → List Bytes × ℕ
cut zero size joined offset = ([], offset)
cut (suc fuel) size joined offset =
    let rest = cut fuel size joined (offset + size) in
    if leb size (length joined - offset)
    then (take size (drop offset joined) ∷ rest.0, rest.1)
    else ([], offset)

unfoldable pub push : Bytes → Chunker → List Bytes × Chunker
unfolding cut
push bytes c =
    let joined = c.buffered ++ bytes in
    let (chunks, offset) = cut (length joined) c.size joined 0 in
    (chunks, record c { buffered = drop offset joined })

-- What is left, and `null` for nothing.
unfoldable pub flush : Chunker → Option Bytes × Chunker
flush c = (if ltb 0 (length c.buffered) then some c.buffered else none, record c { buffered = [] })

-- The blocks of a recording, pushed in order, with all the chunks.
unfoldable pub push_all : List Bytes → Chunker → List Bytes × Chunker
push_all [] c = ([], c)
push_all (block ∷ blocks) c =
    let (chunks, c') = push block c in let (more, c'') = push_all blocks c' in (chunks ++ more, c'')
