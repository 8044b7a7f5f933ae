-- ===== src/Transcriber/Connect.antt =====
-- `connectTranscriber` of ui/transcriber/core.ts. The controller of the client library is the list of the
-- calls that it gets.
pub mod Closing
mod Tests
use chanx_kit.Audio.Chunker.{Bytes}
use chanx_kit.Transcriber.Attempts.{Recorder, RecorderOptions, Sender, create_recorder}
use chanx_kit.Transcriber.Contract.{AudioConfig, TranscriberError, ContractToServer}
use chanx_kit.Transcriber.Recorder.{
  start as start_recorder, stop as stop_recorder, on_config, on_error,
}
use chanx_kit.Transcriber.Utterances.{
  on as on_transcript, create_transcript, TranscriptStore, TranscriptMessage,
}
use chanx_kit.Controller.{Call, controller_start, controller_stop, controller_send, own, relayed}
use chanx_kit.Prelude.{List, Option, String, [], drop, length, map, ℕ, ◌++◌, ◌∷◌}

pub record Connected : Type 0 where
  pub limit : ℕ
  pub transcript : TranscriptStore
  pub recorder : Recorder
  pub calls : List (Call ContractToServer)

abbrev pub connect_transcriber : ℕ → RecorderOptions → Connected
connect_transcriber limit options = record {
  limit = limit;
  transcript = create_transcript;
  recorder = create_recorder options;
  calls = [];
}

-- The recorder goes on to `r`, and what it sends on the way goes to the controller.
abbrev pub relay : Recorder → Connected → Connected
relay r c = record c { recorder = r; calls = c.calls ++ relayed c.recorder.sent r.sent }

-- What `on` is given: the handlers of the transcript and of the recorder.
pub data Incoming : Type 0 where
  transcript_message : TranscriptMessage → Incoming
  audio_config : AudioConfig → Incoming
  transcriber_error : TranscriberError → Option Bytes → Incoming

-- `record`
unfoldable pub start_recording : Connected → Connected
start_recording c = relay (start_recorder own c.recorder) c

abbrev pub start : Connected → Connected
start c = record c { calls = c.calls ++ controller_start ∷ [] }

module _ (to_base64 : Bytes → String) where
  unfoldable pub receive : Incoming → Connected → Connected
  receive (transcript_message m) c = record c { transcript = on_transcript c.limit m c.transcript }
  receive (audio_config config) c = relay (on_config config c.recorder) c
  receive (transcriber_error error last) c = relay (on_error to_base64 error last c.recorder) c

  unfoldable pub stop : Option Bytes → Connected → Connected
  stop last c = relay (stop_recorder to_base64 own last c.recorder) c

  unfoldable pub close : Option Bytes → Connected → Connected
  unfolding stop
  close last c = let c' = stop last c in record c' { calls = c'.calls ++ controller_stop ∷ [] }
