-- ===== src/Transcriber/Utterances/Ends.antt =====
-- The end of an utterance, and the limit.
use mathlib.Core.Option
use chanx_kit.Transcriber.Contract.{TranscriptPartialMessage, UtteranceEndMessage}
use chanx_kit.Transcriber.Utterances.{
  utterance_end, transcript_partial, TranscriptStore, Utterance, change_first, ended, id_of,
  new_utterance, on, with_partial,
}
use chanx_kit.Transcriber.Utterances.Invariant.{IsValid}
use chanx_kit.Transcriber.Utterances.Updates.{Change, KeepsId, length-change_first, updated_new}
use chanx_kit.Prelude.{
  ==_iff, Bool-cases, List, Option, String, [], ap, arith, false, find?, has_key, if◌then◌else◌,
  inl, inr, length, length-append, refl, slice_last, slice_last_fits, suc, sym, ℕ, ◌==◌, ◌∷◌, ◌≡◌,
}

abbrev pub find_utterance : String → List Utterance → Option Utterance
find_utterance id = find? (λ u. u.id == id)

find-change_first :
    (id j : String) (c : Change) (us : List Utterance)
    → KeepsId c
    → find_utterance j (change_first id c us)
      ≡ (if id == j then Option.map c (find_utterance id us) else find_utterance j us)
unfolding change_first
find-change_first id j c [] k = ground arith
find-change_first id j c (u ∷ us) k =
    ground (arith, k u, find-change_first id j c us k, ==_iff id j, ==_iff u.id id, ==_iff u.id j)

change_first_absent :
    (id : String) (c : Change) (us : List Utterance)
    → has_key id_of id us ≡ false
    → change_first id c us ≡ us
unfolding change_first
change_first_absent id c [] h = refl
change_first_absent id c (u ∷ us) h = ground (arith, change_first_absent id c us)

utterance_end-change_first :
    (limit : ℕ) (m : UtteranceEndMessage) (t : TranscriptStore)
    → IsValid limit t
    → (on limit (utterance_end m) t).snapshot ≡ record {
      utterances = change_first m.payload.utterance_id ended t.snapshot.utterances;
      speaking = false;
    }
unfolding on
utterance_end-change_first limit m t v =
    let us = t.snapshot.utterances in
    let id = m.payload.utterance_id in
    let changed = change_first id ended us in
    let fits =
      slice_last_fits limit changed
        (λ p. omega (arith, v.bounded p, length-change_first id ended us)) in
    elim (Bool-cases (has_key id_of id us)) [
      | inl old ↦
          rw old (ap (λ (l : List Utterance). record { utterances = l; speaking = false }) fits)
      | inr new ↦ rw new (
          ap (λ (l : List Utterance). record { utterances = l; speaking = false })
            (sym (change_first_absent id ended us new)))
    ]

-- The end of an utterance marks it done and drops its partial, leaves every other utterance alone,
-- creates none, and ends the speaking.
pub utterance_end_lem :
    (limit : ℕ) (m : UtteranceEndMessage) (t : TranscriptStore) (j : String)
    → IsValid limit t
    → let us = (on limit (utterance_end m) t).snapshot.utterances in
      let id = m.payload.utterance_id in
      (find_utterance j us ≡ (
        if id == j
        then Option.map ended (find_utterance id t.snapshot.utterances)
        else find_utterance j t.snapshot.utterances))
      × (length us ≡ length t.snapshot.utterances)
      × ((on limit (utterance_end m) t).snapshot.speaking ≡ false)
utterance_end_lem limit m t j v =
    let id = m.payload.utterance_id in
    let us = t.snapshot.utterances in
    rw (utterance_end-change_first limit m t v)
      (find-change_first id j ended us (λ u. refl), length-change_first id ended us, refl)

-- A limit of 0 keeps everything: each partial of a new utterance makes the list longer by one.
pub limit_zero_grows :
    (m : TranscriptPartialMessage) (t : TranscriptStore)
    → has_key id_of m.payload.utterance_id t.snapshot.utterances ≡ false
    → length (on 0 (transcript_partial m) t).snapshot.utterances
      ≡ suc (length t.snapshot.utterances)
unfolding on slice_last
limit_zero_grows m t h =
    let us = t.snapshot.utterances in
    let c = with_partial m.payload in
    let id = m.payload.utterance_id in
    omega (
      arith,
      ap length (updated_new id c m.payload.start_ms us h),
      length-append us (c (new_utterance id m.payload.start_ms) ∷ []),
    )
