-- ===== src/Audio/Base64.antt =====
-- `toBase64` and `fromBase64` of ui/audio/core.ts. The browser's own encoders are parameters, on
-- any type of texts; a binary string is the list of its units. The loop takes the number of bytes as
-- fuel.
pub mod RoundTrip
pub mod Standard
mod Tests
use chanx_kit.Audio.Chunker.{Bytes}
use chanx_kit.Prelude.{
  some, none, List, Option, [], drop, if◌then◌else◌, length, ltb, map, suc, take, zero, ℕ, ◌%◌,
  ◌++◌, ◌+◌,
}

-- What the browser has: `toBase64` and `fromBase64` of Uint8Array where they exist, `btoa`, `atob`.
pub record Browser (Text : Type 0) : Type 0 where
  pub native_to : Option (Bytes → Text)
  pub native_from : Option (Text → Bytes)
  pub btoa : List ℕ → Text
  pub atob : Text → List ℕ

-- The loop of `toBase64`, from byte `i` on.
unfoldable pub join_slices : ℕ → Bytes → ℕ → List ℕ → List ℕ
join_slices zero bytes i binary = binary
join_slices (suc fuel) bytes i binary =
    let rest = join_slices fuel bytes (i + 0x8000) (binary ++ take 0x8000 (drop i bytes)) in
    if ltb i (length bytes) then rest else binary

module _ {Text : Type 0} (browser : Browser Text) where
  unfoldable pub to_base64 : Bytes → Text
  unfolding join_slices
  to_base64 bytes = elim browser.native_to [
    | some native ↦ native bytes
    | none ↦ browser.btoa (join_slices (length bytes) bytes 0 [])
  ]

  -- Storing a unit in a Uint8Array keeps its low 8 bits.
  unfoldable pub from_base64 : Text → Bytes
  from_base64 text = elim browser.native_from [
    | some native ↦ native text
    | none ↦ map (λ unit. unit % 0x100) (browser.atob text)
  ]
