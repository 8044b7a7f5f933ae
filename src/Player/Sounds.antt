-- ===== src/Player/Sounds.antt =====
-- What `createPlayer` of ui/player/core.ts does with samples: it decodes a chunk and resamples it.
use Prim.Native.String.{String}
use chanx_kit.Audio.Base64.{Browser, from_base64}
use chanx_kit.Audio.Pcm.{Sample, from_pcm16}
use chanx_kit.Audio.Resampler.{create as create_resampler, Resampler, process, resample}
use chanx_kit.Audio.Resampler.Fractions.{between, silence}
use chanx_kit.Player.Tracks.{Sound}
use chanx_kit.Prelude.{some, none, List, [], or_else, ℕ}
pub mod Utterance
pub mod Heard
mod Tests

-- Bytes can always be read, so that nothing is left out here.
abbrev pub decode : Browser String → String → ℕ → List Sample
decode b text channels = or_else (from_pcm16 (from_base64 b text) channels) []

abbrev pub sounds : Browser String → Sound
sounds b = record {
  Sample = Sample;
  Resampler = Resampler Sample;
  decode = decode b;
  create_resampler = create_resampler silence;
  resample = λ r samples. process silence between samples r;
}
