-- ===== src/Transcriber/Microphone.antt =====
-- `openMicrophone` of ui/transcriber/microphone.ts. What the browser answers is an argument: whether
-- it gives the microphone, makes the audio context, loads the worklet, has suspended the audio, resumes
-- it, and makes the graph. The worklet posts the blocks; samples are fractions. What `onLevel` is told
-- is not modelled.
pub mod Releases
pub mod Emits
pub mod Decodes
pub mod Recorded
mod Tests
use chanx_kit.Audio.Chunker.{create as create_chunker, Bytes, Chunker, flush, push}
use chanx_kit.Audio.Pcm.{Sample, to_pcm16}
use chanx_kit.Audio.Resampler.{create as create_resampler, Resampler, process}
use chanx_kit.Audio.Resampler.Fractions.{between, silence}
use chanx_kit.Prelude.{
  some, none, true, false, Bool, List, Option, [], if◌then◌else◌, kept, not, ℕ, ◌&&◌, ◌++◌, ◌||◌,
  ◌∷◌,
}

-- What is held open: the tracks of the stream, the audio context, the object URL of the worklet.
pub record Devices : Type 0 where
  pub tracks : Bool
  pub context : Bool
  pub object_url : Bool

-- `emitted` holds the calls of `onChunk`; `listening` is whether `onmessage` is set.
pub record Microphone : Type 0 where
  pub resampler : Resampler Sample
  pub chunker : Chunker
  pub listening : Bool
  pub emitted : List Bytes
  pub devices : Devices

-- What the browser answers. `owned` is whether no `workletUrl` is given; `created` whether
-- `new AudioContext()` succeeds, and `connected` whether the source, the node and their connections do.
pub record Answers : Type 0 where
  pub allowed : Bool
  pub created : Bool
  pub owned : Bool
  pub loaded : Bool
  pub suspended : Bool
  pub resumed : Bool
  pub connected : Bool
  pub context_rate : ℕ

abbrev pub nothing_held : Devices
nothing_held = record { tracks = false; context = false; object_url = false }

-- The `try` block: whether it ends without an error.
abbrev pub worklet_runs : Answers → Bool
worklet_runs a = a.loaded && (not a.suspended || a.resumed)

-- Stopping the tracks and closing the context.
abbrev pub release : Devices → Devices
release d = record d { tracks = false; context = false }

-- The `finally` block
abbrev pub revoke : Bool → Devices → Devices
revoke owned d = if owned then record d { object_url = false } else d

abbrev pub new_microphone : ℕ → ℕ → ℕ → Devices → Microphone
new_microphone context_rate sample_rate chunk_ms devices = record {
  resampler = create_resampler silence context_rate sample_rate;
  chunker = create_chunker sample_rate chunk_ms 1;
  listening = true;
  emitted = [];
  devices = devices;
}

-- The microphone, or none where the function throws, and what is held open then. Only the `try` block
-- gives anything back.
unfoldable pub open_microphone : ℕ → ℕ → Answers → Option Microphone × Devices
open_microphone sample_rate chunk_ms a =
    let held : Devices = record { tracks = true; context = true; object_url = a.owned } in
    let kept = revoke a.owned held in
    if not a.allowed
    then (none, nothing_held)
    else if not a.created
    then (none, record { tracks = true; context = false; object_url = false })
    else if worklet_runs a
    then (if a.connected
        then (some (new_microphone a.context_rate sample_rate chunk_ms kept), kept)
        else (none, kept))
    else (none, revoke a.owned (release held))

-- What `onmessage` does with the block that the worklet posts.
unfoldable pub hear : List Sample → Microphone → Microphone
hear block m =
    let (samples, resampler) = process silence between block m.resampler in
    let (chunks, chunker) = push (to_pcm16 samples) m.chunker in
    record m { resampler = resampler; chunker = chunker; emitted = m.emitted ++ chunks }

unfoldable pub on_message : List Sample → Microphone → Microphone
unfolding hear
on_message block m = if m.listening then hear block m else m

abbrev pub rest_of : Option Bytes → List Bytes
rest_of none = []
rest_of (some rest) = rest ∷ []

unfoldable pub stop : Microphone → Microphone
stop m =
    let (rest, chunker) = flush m.chunker in
    record m {
      listening = false;
      chunker = chunker;
      emitted = m.emitted ++ rest_of rest;
      devices = release m.devices;
    }

-- The blocks that the worklet posts, in order.
unfoldable pub on_messages : List (List Sample) → Microphone → Microphone
unfolding on_message
on_messages [] m = m
on_messages (block ∷ blocks) m = on_messages blocks (on_message block m)
