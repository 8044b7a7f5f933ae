-- ===== src/Transcriber/Attempts.antt =====
-- The state of `createRecorder` of ui/transcriber/core.ts: its variables, and those of each call of
-- `start`, with the changes that its operations are made of.
use chanx_kit.Audio.Chunker.{Bytes}
use chanx_kit.Transcriber.Contract.{AudioConfig, ContractToServer, TranscriberError}
use chanx_kit.Store.{Store, create, publish}
use chanx_kit.Prelude.{
  some, none, true, false, Bool, List, Number, Option, String, [], eqb, if◌then◌else◌, or_else, ℕ,
  ◌++◌, ◌∷◌,
}

pub data RecorderStatus : Type 0 where
  idle starting recording : RecorderStatus

pub record RecorderSnapshot : Type 0 where
  pub status : RecorderStatus
  pub level : Number
  pub error : Option TranscriberError
  pub config : Option AudioConfig

pub record RecorderOptions : Type 0 where
  pub config : Option AudioConfig
  pub language : Option String

-- The identity of a `send` function.
abbrev pub Sender : Type 0
Sender = ℕ

-- The microphone of a start: not asked for, asked for, live from when it is given until it is stopped,
-- or over (stopped or never given).
pub data Device : Type 0 where
  unasked waiting live over : Device

-- The local variables of one call of `start`.
pub record Attempt : Type 0 where
  pub send : Sender
  pub sample_rate : ℕ
  pub channels : ℕ
  pub chunk_ms : ℕ
  pub index : ℕ
  pub started : Bool
  pub held : List Bytes
  pub device : Device

-- `sent` lists the messages that were sent, each with the function that sent it.
pub record Recorder : Type 0 where
  pub options : RecorderOptions
  pub store : Store RecorderSnapshot
  pub microphone : Option ℕ
  pub send_current : Option Sender
  pub generation : ℕ
  pub attempts : ℕ → Attempt
  pub sent : List (Sender × ContractToServer)

abbrev pub no_attempt : Attempt
no_attempt = record {
  send = 0;
  sample_rate = 0;
  channels = 0;
  chunk_ms = 0;
  index = 0;
  started = false;
  held = [];
  device = unasked;
}

abbrev pub create_recorder : RecorderOptions → Recorder
create_recorder options = record {
  options = options;
  store = create (record { status = idle; level = "0"; error = none; config = none });
  microphone = none;
  send_current = none;
  generation = 0;
  attempts = λ n. no_attempt;
  sent = [];
}

abbrev pub snapshot_of : Recorder → RecorderSnapshot
snapshot_of r = r.store.snapshot

abbrev pub show : RecorderSnapshot → Recorder → Recorder
show next r = record r { store = publish next r.store }

abbrev pub put : ℕ → Attempt → Recorder → Recorder
put n a r = record r { attempts = λ k. if eqb k n then a else r.attempts k }

abbrev pub send_message : Sender → ContractToServer → Recorder → Recorder
send_message send message r = record r { sent = r.sent ++ (send, message) ∷ [] }

-- A key of `{ ...DEFAULT_CONFIG, ...options.config, ...snapshot.config }`; the defaults have them all.
abbrev pub key_of : (AudioConfig → Option ℕ) → Option AudioConfig → ℕ → ℕ
key_of key none default = default
key_of key (some config) default = or_else (key config) default

abbrev pub configured : (AudioConfig → Option ℕ) → ℕ → Recorder → ℕ
configured key default r = key_of key (snapshot_of r).config (key_of key (r.options).config default)

abbrev pub is_idle : RecorderStatus → Bool
is_idle idle = true
is_idle _ = false

abbrev pub is_recording : RecorderStatus → Bool
is_recording recording = true
is_recording _ = false

abbrev pub new_attempt : Sender → Recorder → Attempt
new_attempt send r = record {
  send = send;
  sample_rate = configured (λ c. c.sample_rate) 24000 r;
  channels = configured (λ c. c.channels) 1 r;
  chunk_ms = configured (λ c. c.chunk_ms) 100 r;
  index = 0;
  started = false;
  held = [];
  device = waiting;
}
