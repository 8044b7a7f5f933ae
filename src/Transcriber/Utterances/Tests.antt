-- ===== src/Transcriber/Utterances/Tests.antt =====
-- Runs of the transcript, after ui/transcriber/tests/core.test.ts.
use chanx_kit.Transcriber.Contract.{
  TranscriptFinalMessage, TranscriptPartialMessage, UtteranceEndMessage,
}
use chanx_kit.Transcriber.Utterances.{
  transcript_partial, transcript_final, utterance_end, message, Event, TranscriptStore, Utterance,
  create_transcript, new_utterance, on, steps, utterance_text, with_final,
}
use chanx_kit.Transcriber.Utterances.Finals.{repeated_final_lost, transcript_final_twice}
use chanx_kit.Transcriber.Utterances.Invariant.{IsValid, steps-IsValid}
use chanx_kit.Prelude.{
  List, String, [], absent, arith, concat, false, map, refl, slice_last, true, ℕ, ◌==◌, ◌∷◌, ◌≡◌,
}

abbrev partial : String → String → ℕ → TranscriptPartialMessage
partial id text end_ms = record {
  payload = record { utterance_id = id; text = text; start_ms = 0; end_ms = end_ms };
}

abbrev final : String → String → ℕ → TranscriptFinalMessage
final id text end_ms = record {
  payload = record {
    utterance_id = id;
    text = text;
    start_ms = 0;
    end_ms = end_ms;
    confidence = absent;
  };
}

abbrev end : String → UtteranceEndMessage
end id = record { payload = record { utterance_id = id } }

abbrev utterance : Utterance
utterance = record {
  id = "u";
  finals = "ok" ∷ [];
  partial = "";
  done = false;
  start_ms = 0;
  end_ms = 900;
}

abbrev transcript : TranscriptStore
transcript = record {
  listeners = [];
  snapshot = record { utterances = utterance ∷ []; speaking = true };
  told = [];
}

transcript-IsValid : IsValid 2 transcript
transcript-IsValid = record { distinct = (refl, tt); bounded = λ p. omega arith }

abbrev events : List Event
events =
    message (transcript_partial (partial "u" "hel" 300))
    ∷ message (transcript_final (final "u" "hello" 500))
    ∷ message (transcript_final (final "v" "there" 900))
    ∷ message (utterance_end (end "u"))
    ∷ []

events_text :
    map utterance_text (steps 2 events create_transcript).snapshot.utterances
    ≡ "hello" ∷ "there" ∷ []
unfolding steps ◌==◌ slice_last concat
events_text = refl

steps-IsValid_example : IsValid 2 (steps 2 events create_transcript)
steps-IsValid_example =
    steps-IsValid 2 events create_transcript (record { distinct = tt; bounded = λ p. omega arith })

transcript_final_twice_example :
    (on 2
      (transcript_final (final "u" "ok" 950))
      (on 2 (transcript_final (final "u" "ok" 950)) transcript)).snapshot
    ≡ (on 2 (transcript_final (final "u" "ok" 950)) transcript).snapshot
transcript_final_twice_example =
    transcript_final_twice 2 (final "u" "ok" 950) transcript transcript-IsValid

-- "ok", and then a second "ok" whose partial came first
repeated_final_lost_example :
    (on 2
      (transcript_final (final "u" "ok" 1500))
      (on 2 (transcript_partial (partial "u" "ok" 1500)) transcript)).snapshot
    ≡ (on 2 (transcript_partial (partial "u" "ok" 1500)) transcript).snapshot
unfolding ◌==◌
repeated_final_lost_example =
    repeated_final_lost 2 (partial "u" "ok" 1500) (final "u" "ok" 1500) transcript utterance
      transcript-IsValid refl refl refl (omega arith)

-- Two finals of one utterance that are replayed together are both added again.
replayed_finals :
    (with_final (final "u" "b" 900).payload (
      with_final (final "u" "a" 500).payload (
        with_final
          (final "u" "b" 900).payload
          (with_final (final "u" "a" 500).payload (new_utterance "u" 0))))).finals
    ≡ "a" ∷ "b" ∷ "a" ∷ "b" ∷ []
unfolding ◌==◌
replayed_finals = refl
