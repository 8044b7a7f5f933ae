-- ===== src/Transcriber/Utterances/Invariant.antt =====
-- What holds of a transcript between two messages.
use chanx_kit.Transcriber.Utterances.{
  message, cleared, speech_started, transcript_partial, transcript_final, utterance_end, Event,
  TranscriptStore, Utterance, ended, id_of, new_utterance, set_speaking, step, steps, update,
  updated, with_final, with_partial,
}
use chanx_kit.Transcriber.Utterances.Updates.{
  Change, Distinct-change_first, KeepsId, with_final-KeepsId,
}
use chanx_kit.Prelude.{
  Bool-cases, Distinct, Distinct-drop, Distinct-snoc, List, String, [], arith, eqb, false, has_key,
  inl, inr, length, length-slice_last-le, refl, slice_last, ℕ, ◌-◌, ◌<◌, ◌∷◌, ◌≤◌, if_both,
}

-- No two utterances have one id, and a positive limit bounds their number.
pub record IsValid (limit : ℕ) (t : TranscriptStore) : Type 0 where
  pub distinct : Distinct id_of t.snapshot.utterances
  pub bounded : 0 < limit → length t.snapshot.utterances ≤ limit

updated-Distinct :
    (id : String) (c : Change) (start_ms : ℕ) (us : List Utterance)
    → KeepsId c
    → Distinct id_of us
    → Distinct id_of (updated id c start_ms us)
unfolding updated
updated-Distinct id c start_ms us k d = elim (Bool-cases (has_key id_of id us)) [
  | inl old ↦ rw old (Distinct-change_first id c us k d)
  | inr new ↦
      let u = new_utterance id start_ms in rw new (Distinct-snoc id_of us (c u) d (rw (k u) new))
]

slice_last-Distinct :
    (n : ℕ) (us : List Utterance) → Distinct id_of us → Distinct id_of (slice_last n us)
unfolding slice_last
slice_last-Distinct n us d = elim (Bool-cases (eqb n 0)) [
  | inl z ↦ rw z d
  | inr p ↦ rw p (Distinct-drop id_of (length us - n) us d)
]

pub update-IsValid :
    (limit : ℕ) (id : String) (c : Change) (start_ms : ℕ) (t : TranscriptStore)
    → KeepsId c
    → IsValid limit t
    → IsValid limit (update limit id c start_ms t)
unfolding update
update-IsValid limit id c start_ms t k v =
    let us = updated id c start_ms t.snapshot.utterances in
    record {
      distinct =
          slice_last-Distinct limit us
            (updated-Distinct id c start_ms t.snapshot.utterances k v.distinct);
      bounded = λ p. length-slice_last-le limit us p;
    }

step-IsValid :
    (limit : ℕ) (e : Event) (t : TranscriptStore) → IsValid limit t → IsValid limit (step limit e t)
unfolding step
step-IsValid limit (message (speech_started m)) t v = record {
  distinct = v.distinct;
  bounded = v.bounded;
}
step-IsValid limit (message (transcript_partial m)) t v =
    update-IsValid limit m.payload.utterance_id (with_partial m.payload) m.payload.start_ms t
      (λ u. refl) v
step-IsValid limit (message (transcript_final m)) t v =
    update-IsValid limit m.payload.utterance_id (with_final m.payload) m.payload.start_ms t
      (with_final-KeepsId m.payload) v
step-IsValid limit (message (utterance_end m)) t v =
    let quiet = set_speaking false t in
    let valid : IsValid limit quiet = record { distinct = v.distinct; bounded = v.bounded } in
    if_both (IsValid limit) (has_key id_of m.payload.utterance_id t.snapshot.utterances)
      (update-IsValid limit m.payload.utterance_id ended 0 quiet (λ u. refl) valid) valid
step-IsValid limit cleared t v = record { distinct = tt; bounded = λ p. omega arith }

-- Whatever messages and clears come to a transcript, in any order, it lists no utterance twice, and
-- under a positive limit it keeps no more utterances than the limit.
pub steps-IsValid :
    (limit : ℕ) (es : List Event) (t : TranscriptStore)
    → IsValid limit t
    → IsValid limit (steps limit es t)
unfolding steps
steps-IsValid limit [] t v = v
steps-IsValid limit (e ∷ es) t v =
    steps-IsValid limit es (step limit e t) (step-IsValid limit e t v)
