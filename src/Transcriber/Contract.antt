-- ===== src/Transcriber/Contract.antt =====
-- The messages of ui/transcriber/contract.ts (transcriber@1). A tag with one value, such as `action`, is the
-- constructor of the union, and a number is a count or a time in milliseconds.
use chanx_kit.Prelude.{Field, Number, Option, String, ℕ}

-- ``index`` counts from 0 for each ``audio_start``, so a gap can be detected.
pub record AudioChunk : Type 0 where
  pub index : ℕ
  pub data_value : String

-- A piece of the stream.
pub record AudioChunkMessage : Type 0 where
  pub payload : AudioChunk

-- The format the server wants, and how much audio to put in each chunk.
pub record AudioConfig : Type 0 where
  pub sample_rate : Option ℕ
  pub channels : Option ℕ
  pub chunk_ms : Option ℕ

-- Sent on subscribe: capture to this format.
pub record AudioConfigMessage : Type 0 where
  pub payload : AudioConfig

-- Client asks for the capture format again, without resubscribing.
pub record AudioConfigRequestMessage : Type 0 where
  pub payload : Field ⊥

-- The stream is over: flush what the provider holds, then close it.
pub record AudioEndMessage : Type 0 where
  pub payload : Field ⊥

-- The format actually captured, which must match ``audio_config``.
pub record AudioStart : Type 0 where
  pub sample_rate : Option ℕ
  pub channels : Option ℕ
  pub language : Field String

-- Client begins a stream of audio.
pub record AudioStartMessage : Type 0 where
  pub payload : AudioStart

pub record SpeechStarted : Type 0 where
  pub at_ms : ℕ

-- The provider heard speech begin, for barge-in and "listening" indicators.
pub record SpeechStartedMessage : Type 0 where
  pub payload : SpeechStarted

pub data TranscriberErrorCode : Type 0 where
  provider_unavailable limit_reached bad_format audio_gap not_started : TranscriberErrorCode

pub record TranscriberError : Type 0 where
  pub code : TranscriberErrorCode
  pub message : String

-- Something went wrong. Every code except ``audio_gap`` ends the stream.
pub record TranscriberErrorMessage : Type 0 where
  pub payload : TranscriberError

-- Times are milliseconds from the ``audio_start`` of this stream.
pub record Transcript : Type 0 where
  pub utterance_id : String
  pub text : String
  pub start_ms : ℕ
  pub end_ms : ℕ

pub record TranscriptFinal : Type 0 where
  pub utterance_id : String
  pub text : String
  pub start_ms : ℕ
  pub end_ms : ℕ
  pub confidence : Field Number

-- A segment that will not change. An utterance is its finals in order.
pub record TranscriptFinalMessage : Type 0 where
  pub payload : TranscriptFinal

-- The segment being spoken, so far. Replaces the previous partial of the utterance.
pub record TranscriptPartialMessage : Type 0 where
  pub payload : Transcript

pub record UtteranceEnd : Type 0 where
  pub utterance_id : String

-- The speaker paused: the utterance is complete.
pub record UtteranceEndMessage : Type 0 where
  pub payload : UtteranceEnd

pub data ContractToServer : Type 0 where
  audio_chunk : AudioChunkMessage → ContractToServer
  audio_config_request : AudioConfigRequestMessage → ContractToServer
  audio_end : AudioEndMessage → ContractToServer
  audio_start : AudioStartMessage → ContractToServer

pub data ContractToClient : Type 0 where
  audio_config : AudioConfigMessage → ContractToClient
  speech_started : SpeechStartedMessage → ContractToClient
  transcriber_error : TranscriberErrorMessage → ContractToClient
  transcript_final : TranscriptFinalMessage → ContractToClient
  transcript_partial : TranscriptPartialMessage → ContractToClient
  utterance_end : UtteranceEndMessage → ContractToClient
