-- ===== src/Transcriber/Recorder/Tests.antt =====
-- Runs of a recorder, after ui/transcriber/tests/core.test.ts.
use chanx_kit.Audio.Chunker.{Bytes}
use chanx_kit.Transcriber.Contract.{limit_reached, not_started, TranscriberError}
use chanx_kit.Transcriber.Recorder.{
  stop, release, begin, on_chunk, on_error, opened, send_all, start,
}
use chanx_kit.Transcriber.Attempts.{idle, recording, Recorder, create_recorder, snapshot_of}
use chanx_kit.Transcriber.Recorder.Steps.{
  user_stop, created, stepped, user_start, microphone_opened, chunk_held, chunk_captured, Reachable,
}
use chanx_kit.Transcriber.Recorder.Messages.{streaming, Stream, heard}
use chanx_kit.Transcriber.Recorder.Releases.{live_lem}
use chanx_kit.Transcriber.Recorder.Runs.{accepted_lem}
use chanx_kit.Transcriber.Recorder.Chunks.{chunk_message, on_error_replaced}
use chanx_kit.Transcriber.Recorder.Silence.{at_once, further, sent-Later}
use chanx_kit.Prelude.{some, none, String, [], refl, ◌++◌, ◌∷◌, ◌≡◌}

-- Only tells the empty text from others.
abbrev encode : Bytes → String
encode [] = ""
encode (b ∷ bytes) = "AA=="

abbrev new : Recorder
new = create_recorder (record { config = none; language = some "en" })

-- A start, a chunk before the microphone is given, the microphone, and a chunk.
abbrev asked : Recorder
asked = start 7 new

abbrev holding : Recorder
holding = on_chunk encode 1 (1 ∷ []) asked

abbrev running : Recorder
running = on_chunk encode 1 (2 ∷ []) (opened encode 1 none holding)

holding-Reachable : Reachable encode holding
unfolding start
holding-Reachable =
    stepped asked holding
      (stepped new asked (created (record { config = none; language = some "en" }))
        (user_start 7 new))
      (chunk_held 1 (1 ∷ []) asked refl)

running-Reachable : Reachable encode running
unfolding start on_chunk opened begin send_all
running-Reachable =
    stepped (opened encode 1 none holding) running
      (stepped holding (opened encode 1 none holding) holding-Reachable
        (microphone_opened 1 none holding refl))
      (chunk_captured 1 (2 ∷ []) (opened encode 1 none holding) refl)

running_heard : heard running ≡ some (streaming 7 2)
unfolding start on_chunk opened begin send_all
running_heard = refl

live_lem_example : (running.microphone ≡ some 1) × ((snapshot_of running).status ≡ recording)
unfolding start on_chunk opened begin send_all
live_lem_example = live_lem encode running 1 running-Reachable refl

accepted_lem_example : (stream : Stream) × (heard running ≡ some stream)
accepted_lem_example = accepted_lem encode running running-Reachable

abbrev limit : TranscriberError
limit = record { code = limit_reached; message = "Limit" }

abbrev refusal : TranscriberError
refusal = record { code = not_started; message = "Send audio_start before audio." }

on_error_replaced_example :
    ((on_error encode limit (some (3 ∷ [])) running).sent
      ≡ running.sent ++ (7, chunk_message encode 2 (3 ∷ [])) ∷ [])
    × ((snapshot_of
          (on_error encode refusal none (on_error encode limit (some (3 ∷ [])) running))).error
        ≡ some refusal)
unfolding start on_chunk opened begin send_all
on_error_replaced_example =
    on_error_replaced encode limit refusal (3 ∷ []) running running-Reachable refl refl

-- A start that is cancelled while it waits for its microphone, which is given all the same.
abbrev quit : Recorder
quit = stop encode 7 none asked

quit-Reachable : Reachable encode quit
unfolding start
quit-Reachable =
    stepped asked quit
      (stepped new asked (created (record { config = none; language = some "en" }))
        (user_start 7 new))
      (user_stop 7 none asked)

sent-Later_example :
    ((opened encode 1 (some (9 ∷ [])) quit).sent ≡ quit.sent)
    × ((snapshot_of (opened encode 1 (some (9 ∷ [])) quit)).status ≡ idle)
unfolding start stop release
sent-Later_example =
    sent-Later encode quit (opened encode 1 (some (9 ∷ [])) quit) quit-Reachable refl (
      further quit (opened encode 1 (some (9 ∷ [])) quit) at_once
        (microphone_opened 1 (some (9 ∷ [])) quit refl) tt)
