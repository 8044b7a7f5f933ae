-- ===== src/Player/Contract.antt =====
-- The messages of ui/player/contract.ts (synthesizer@1). A tag with one value, such as `action`, is the
-- constructor of the union, and a number is a count or a time in milliseconds.
use chanx_kit.Prelude.{Field, Option, String, ℕ}

-- How much of an utterance was actually heard, in milliseconds.
pub record PlaybackMark : Type 0 where
  pub utterance_id : String
  pub played_ms : ℕ

-- Client reports playback progress, so the server knows what was heard.
pub record PlaybackMarkMessage : Type 0 where
  pub payload : PlaybackMark

pub record Speak : Type 0 where
  pub text : String
  pub voice : Field String
  pub utterance_id : Field String

-- Client asks to stop: the utterance playing and everything queued.
pub record SpeakClearMessage : Type 0 where
  pub payload : Field ⊥

-- Client asks for text to be spoken. Queued behind what is already speaking.
pub record SpeakMessage : Type 0 where
  pub payload : Speak

-- ``index`` counts from 0 per utterance, so a replayed chunk can be recognised.
pub record SpeechAudioChunk : Type 0 where
  pub utterance_id : String
  pub index : ℕ
  pub data_value : String

-- A piece of the utterance's audio.
pub record SpeechAudioChunkMessage : Type 0 where
  pub payload : SpeechAudioChunk

pub record SpeechAudioEnd : Type 0 where
  pub utterance_id : String
  pub duration_ms : ℕ

-- The utterance's audio is complete.
pub record SpeechAudioEndMessage : Type 0 where
  pub payload : SpeechAudioEnd

pub record SpeechAudioStart : Type 0 where
  pub sample_rate : Option ℕ
  pub channels : Option ℕ
  pub utterance_id : String
  pub text : String

-- An utterance begins, in this format.
pub record SpeechAudioStartMessage : Type 0 where
  pub payload : SpeechAudioStart

-- The utterance that was playing, if any.
pub record SpeechClear : Type 0 where
  pub utterance_id : Field String

-- Stop playing now and drop anything buffered: an interruption.
pub record SpeechClearMessage : Type 0 where
  pub payload : SpeechClear

pub data SynthesizerErrorCode : Type 0 where
  provider_unavailable bad_request provider_failed : SynthesizerErrorCode

pub record SynthesizerError : Type 0 where
  pub code : SynthesizerErrorCode
  pub message : String
  pub utterance_id : Field String

-- An utterance could not be spoken.
pub record SynthesizerErrorMessage : Type 0 where
  pub payload : SynthesizerError

pub data ContractToServer : Type 0 where
  playback_mark : PlaybackMarkMessage → ContractToServer
  speak_clear : SpeakClearMessage → ContractToServer
  speak : SpeakMessage → ContractToServer

pub data ContractToClient : Type 0 where
  audio_chunk : SpeechAudioChunkMessage → ContractToClient
  audio_end : SpeechAudioEndMessage → ContractToClient
  audio_start : SpeechAudioStartMessage → ContractToClient
  clear : SpeechClearMessage → ContractToClient
  synthesizer_error : SynthesizerErrorMessage → ContractToClient
