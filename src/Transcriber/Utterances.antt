-- ===== src/Transcriber/Utterances.antt =====
-- `createTranscript` of ui/transcriber/core.ts: the utterances that a transcriber heard, as a store.
-- `limit` is its option. `xs.slice(-limit)` is `slice_last`, which keeps all for a limit of 0.
pub mod Updates
pub mod Invariant
pub mod Finals
pub mod Ends
mod Tests
use chanx_kit.Transcriber.Contract
use chanx_kit.Transcriber.Contract.{
  SpeechStartedMessage, Transcript, TranscriptFinal, TranscriptFinalMessage,
  TranscriptPartialMessage, UtteranceEndMessage,
}
use chanx_kit.Prelude.{
  Bool, List, String, [], concat, false, filter, has_key, if◌then◌else◌, is_true, last?, leb,
  opt_eq, slice_last, some, true, ℕ, ◌&&◌, ◌++◌, ◌==◌, ◌∷◌,
}
use chanx_kit.Store.{Store, create, publish}

pub record Utterance : Type 0 where
  pub id : String
  pub finals : List String
  pub partial : String
  pub done : Bool
  pub start_ms : ℕ
  pub end_ms : ℕ

-- `parts.join(' ')`
abbrev pub join : List String → String
join [] = ""
join (s ∷ []) = s
join (s ∷ t ∷ ss) = concat s (concat " " (join (t ∷ ss)))

abbrev pub utterance_text : Utterance → String
utterance_text u = join (filter is_true (u.finals ++ u.partial ∷ []))

pub record TranscriptSnapshot : Type 0 where
  pub utterances : List Utterance
  pub speaking : Bool

abbrev pub TranscriptStore : Type 0
TranscriptStore = Store TranscriptSnapshot

abbrev pub default_limit : ℕ
default_limit = 100

abbrev pub create_transcript : TranscriptStore
create_transcript = create (record { utterances = []; speaking = false })

abbrev pub new_utterance : String → ℕ → Utterance
new_utterance id start_ms = record {
  id = id;
  finals = [];
  partial = "";
  done = false;
  start_ms = start_ms;
  end_ms = start_ms;
}

abbrev pub id_of : Utterance → String
id_of u = u.id

-- `utterances[index] = change(utterances[index])`, at the first with the id
pub change_first : String → (Utterance → Utterance) → List Utterance → List Utterance
change_first id change [] = []
change_first id change (u ∷ us) =
    if u.id == id then change u ∷ us else u ∷ change_first id change us

-- The list that `update` publishes, before the cut.
unfoldable pub updated : String → (Utterance → Utterance) → ℕ → List Utterance → List Utterance
unfolding change_first
updated id change start_ms us =
    if has_key id_of id us
    then change_first id change us
    else us ++ change (new_utterance id start_ms) ∷ []

unfoldable pub update : ℕ → String → (Utterance → Utterance) → ℕ → TranscriptStore → TranscriptStore
unfolding updated
update limit id change start_ms t =
    let us = slice_last limit (updated id change start_ms t.snapshot.utterances) in
    publish (record { utterances = us; speaking = t.snapshot.speaking }) t

-- The changes that the handlers make to an utterance.
abbrev pub with_partial : Transcript → Utterance → Utterance
with_partial payload u = record u { partial = payload.text; end_ms = payload.end_ms }

-- A final that is the last one already, and ends no later than the utterance, is a replay.
abbrev pub is_replay : TranscriptFinal → Utterance → Bool
is_replay payload u = opt_eq (last? u.finals) (some payload.text) && leb payload.end_ms u.end_ms

abbrev pub with_final : TranscriptFinal → Utterance → Utterance
with_final payload u =
    if is_replay payload u
    then u
    else record u { finals = u.finals ++ payload.text ∷ []; partial = ""; end_ms = payload.end_ms }

abbrev pub ended : Utterance → Utterance
ended u = record u { partial = ""; done = true }

-- The messages that a transcript takes, of those that the topic sends.
pub data TranscriptMessage : Type 0 where
  speech_started : SpeechStartedMessage → TranscriptMessage
  transcript_partial : TranscriptPartialMessage → TranscriptMessage
  transcript_final : TranscriptFinalMessage → TranscriptMessage
  utterance_end : UtteranceEndMessage → TranscriptMessage

abbrev pub set_speaking : Bool → TranscriptStore → TranscriptStore
set_speaking speaking t =
    publish (record { utterances = t.snapshot.utterances; speaking = speaking }) t

unfoldable pub on : ℕ → TranscriptMessage → TranscriptStore → TranscriptStore
unfolding update
on limit (speech_started m) t = set_speaking true t
on limit (transcript_partial m) t =
    update limit m.payload.utterance_id (with_partial m.payload) m.payload.start_ms t
on limit (transcript_final m) t =
    update limit m.payload.utterance_id (with_final m.payload) m.payload.start_ms t
on limit (utterance_end m) t =
    let quiet = set_speaking false t in
    if has_key id_of m.payload.utterance_id t.snapshot.utterances
    then update limit m.payload.utterance_id ended 0 quiet
    else quiet

unfoldable pub clear : TranscriptStore → TranscriptStore
clear t = publish (record { utterances = []; speaking = false }) t

-- What happens to a transcript: a message, or a call of `clear`.
pub data Event : Type 0 where
  message : TranscriptMessage → Event
  cleared : Event

unfoldable pub step : ℕ → Event → TranscriptStore → TranscriptStore
unfolding on clear
step limit (message m) t = on limit m t
step limit cleared t = clear t

unfoldable pub steps : ℕ → List Event → TranscriptStore → TranscriptStore
unfolding step
steps limit [] t = t
steps limit (e ∷ es) t = steps limit es (step limit e t)
