-- ===== src/Player/Sounds/Tests.antt =====
-- An utterance of two chunks, in a browser that decodes two texts.
use Prim.Native.String.{String}
use chanx_kit.Audio.Base64.{Browser, from_base64}
use chanx_kit.Audio.Chunker.{Bytes}
use chanx_kit.Audio.Pcm.{Sample, from_pcm16, get_int16, read_frames, sum_channels}
use chanx_kit.Audio.Resampler.{create as create_resampler, process}
use chanx_kit.Audio.Resampler.Fractions.{silence, between}
use chanx_kit.Player.Contract.{SpeechAudioStart, SpeechAudioChunk}
use chanx_kit.Player.Handlers.{play_all}
use chanx_kit.Player.Handlers.Rejoin.{start_message, chunk_message}
use chanx_kit.Player.Playback.{Message, create}
use chanx_kit.Player.Playback.Queue.{pending, create-IsValid}
use chanx_kit.Player.Playback.Stream.{block, message, Event, heard_all, after_all}
use chanx_kit.Player.Sounds.{sounds, decode}
use chanx_kit.Player.Sounds.Heard.{stream, heard-play_all}
use chanx_kit.Player.Sounds.Utterance.{writes, posted_utterance}
use chanx_kit.Player.Tracks.{Speaker, Player, create_player}
use chanx_kit.Prelude.{
  some, none, List, [], arith, if◌then◌else◌, length, map, refl, ℕ, ◌++◌, ◌==◌, ◌∷◌, ◌≡◌,
}

abbrev bytes_of_text : String → Bytes
bytes_of_text text = if text == "one" then 0 ∷ 0 ∷ 0 ∷ 64 ∷ [] else 0 ∷ 32 ∷ 0 ∷ 0 ∷ 0 ∷ 16 ∷ []

abbrev browser : Browser String
browser = record {
  native_to = none;
  native_from = some bytes_of_text;
  btoa = λ xs. "";
  atob = λ text. [];
}

abbrev payload : SpeechAudioStart
payload = record { sample_rate = some 2; channels = none; utterance_id = "u"; text = "hello" }

abbrev chunk : ℕ → String → SpeechAudioChunk
chunk index text = record { utterance_id = "u"; index = index; data_value = text }

abbrev chunks : List SpeechAudioChunk
chunks = chunk 0 "one" ∷ chunk 1 "two" ∷ []

abbrev speaker : Speaker (sounds browser)
speaker = record { sample_rate = 1; posted = [] }

abbrev player : Player (sounds browser)
player = record (create_player (record { prebuffer_ms = 150; mark_every_ms = 250 })) {
  speaker = some speaker;
}

abbrev ms : List (Message Sample)
ms = writes (sounds browser) 1 (create_resampler silence 2 1) chunks

posted :
    (play_all 0 (start_message payload ∷ map chunk_message chunks) player).speaker
    ≡ some (record speaker { posted = [] ++ ms })
posted =
    posted_utterance 0 payload chunks speaker player refl refl (refl, (refl, tt)) (refl, (refl, tt))

-- Output is asked for after each message.
abbrev interleaved : List (Message Sample) → List (Event silence)
interleaved [] = []
interleaved (m ∷ ms) = message m ∷ block 1 ∷ interleaved ms

sizes : map length (map (λ c. decode browser c.data_value 1) chunks) ≡ 2 ∷ 3 ∷ []
unfolding from_pcm16 read_frames sum_channels get_int16 from_base64 ◌==◌
sizes = refl

heard-play_all_example :
    heard_all silence (interleaved ms) (create 1)
      ++ pending (after_all silence (interleaved ms) (create 1))
    ≡ (process silence between (stream browser 1 chunks) (create_resampler silence 2 1)).0
heard-play_all_example =
    heard-play_all browser 0 payload chunks speaker player (interleaved ms) (create 1) refl refl
      (refl, (refl, tt)) (refl, (refl, tt)) (omega arith) (omega arith) posted (create-IsValid 1)
