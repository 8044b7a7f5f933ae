-- ===== src/Transcriber/Microphone/Tests.antt =====
-- Runs of the microphone.
use chanx_kit.Audio.Chunker.{create as create_chunker, cut, flush, push}
use chanx_kit.Audio.Pcm.{Sample, to_pcm16}
use chanx_kit.Audio.Resampler.{create as create_resampler, process, resample, walk}
use chanx_kit.Audio.Resampler.Fractions.{silence}
use chanx_kit.Transcriber.Microphone.{
  Answers, Devices, Microphone, hear, new_microphone, nothing_held, on_message, on_messages,
  open_microphone, stop,
}
use chanx_kit.Transcriber.Capture.{create}
use chanx_kit.Transcriber.Microphone.Releases.{IsReleased, leaked, open_microphone-IsReleased}
use chanx_kit.Prelude.{pos, List, [], false, length, map, none, refl, replicate, true, ℕ, ◌∷◌, ◌≡◌}

abbrev devices : Devices
devices = record { tracks = true; context = true; object_url = false }

abbrev tenths : ℕ → Sample
tenths n = record { num = pos n; den = 10 }

abbrev blocks : List (List Sample)
blocks =
    (tenths 0 ∷ tenths 1 ∷ tenths 2 ∷ [])
    ∷ (tenths 3 ∷ tenths 4 ∷ [])
    ∷ (tenths 5 ∷ tenths 6 ∷ [])
    ∷ []

-- 2 samples in a chunk, at half the rate of the context
abbrev fresh : Microphone
fresh = new_microphone 2000 1000 2 devices

abbrev refused : Answers
refused = record {
  allowed = true;
  created = true;
  owned = true;
  loaded = true;
  suspended = true;
  resumed = false;
  connected = true;
  context_rate = 48000;
}

refused_open : open_microphone 24000 100 refused ≡ (none, nothing_held)
unfolding open_microphone
refused_open = refl

-- The tracks and the context stay open where the graph is refused.
graph_refused :
    open_microphone 24000 100 (record refused { resumed = true; connected = false })
    ≡ (none, devices)
unfolding open_microphone
graph_refused = refl

open_microphone-IsReleased_example :
    IsReleased blocks
      (leaked (record refused { resumed = true }))
      (open_microphone 24000 100 (record refused { resumed = true }))
open_microphone-IsReleased_example =
    open_microphone-IsReleased 24000 100 (record refused { resumed = true }) blocks

chunk_sizes : map length (stop (on_messages blocks fresh)).emitted ≡ 4 ∷ 2 ∷ []
unfolding stop on_messages on_message hear process resample walk create_chunker create_resampler
    push cut flush to_pcm16
chunk_sizes = refl

-- One channel
abbrev first : List Sample → Sample
first [] = silence
first (s ∷ ss) = s

-- More frames than the worklet posts at once.
abbrev inputs : List (List (List Sample))
inputs = replicate 17 (replicate 128 (tenths 1) ∷ [])
