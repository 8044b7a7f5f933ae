-- ===== src/Transcriber/Utterances/Finals.antt =====
-- Finals that arrive twice, and finals that only look as if they did.
use mathlib.Core.Path.{fun_ext}
use chanx_kit.Transcriber.Utterances.{
  transcript_partial, transcript_final, TranscriptStore, update, updated, Utterance, id_of,
  change_first, new_utterance, on, with_final, with_partial,
}
use chanx_kit.Transcriber.Utterances.Invariant.{IsValid}
use chanx_kit.Transcriber.Utterances.Updates.{
  Change, KeepsId, change_first-change_first, change_first-snoc, has_key-change_first,
  has_key-kept-false, length-change_first, updated_new, updated_old, with_final-KeepsId,
  change_first_congr,
}
use chanx_kit.Transcriber.Contract.{
  TranscriptFinal, TranscriptFinalMessage, TranscriptPartialMessage,
}
use chanx_kit.Prelude.{
  String, ℕ, ◌≡◌, Bool-cases, List, ap, has_key, inl, inr, ==_refl, [], arith, false, find?,
  has_key-snoc, kept, last?, length, length-append, length-kept-lt, slice_last, slice_last-snoc,
  slice_last_fits, some, sym, true, ◌++◌, ◌<◌, ◌==◌, ◌∙◌, ◌∷◌, ◌≤◌, any_of_find?, last?-snoc,
  opt_eq_iff, opt_eq_refl, refl,
}

module _ (limit : ℕ) (id : String) (c d : Change) (s s' : ℕ) (us : List Utterance)
    (k : KeepsId d) where
  abbrev cd : Change
  cd u = c (d u)

  abbrev Once : Type 0
  Once =
      slice_last limit (updated id c s' (slice_last limit (updated id d s us)))
      ≡ slice_last limit (updated id cd s us)

  once_old : (0 < limit → length us ≤ limit) → has_key id_of id us ≡ true → Once
  once_old bounded old =
      let changed = change_first id d us in
      let fits =
        slice_last_fits limit changed
          (λ p. omega (arith, bounded p, length-change_first id d us)) in
      ap (λ l. slice_last limit (updated id c s' l))
        (ap (slice_last limit) (updated_old id d s us old) ∙ fits)
      ∙ ap (slice_last limit) (
          updated_old id c s' changed (has_key-change_first id d id us k ∙ old)
          ∙ change_first-change_first id c d us k
          ∙ sym (updated_old id cd s us old))

  once_new : has_key id_of id us ≡ false → Once
  once_new new =
      let u = d (new_utterance id s) in
      let ys = kept limit us in
      let absent = has_key-kept-false id limit us new in
      let found : has_key id_of id (ys ++ u ∷ []) ≡ true =
        has_key-snoc id_of id ys u ∙ rw (absent, k (new_utterance id s)) (==_refl id) in
      let fits =
        slice_last_fits limit (ys ++ c u ∷ [])
          (λ p. omega (arith, length-kept-lt limit us p, length-append ys (c u ∷ []))) in
      ap (λ l. slice_last limit (updated id c s' l))
        (ap (slice_last limit) (updated_new id d s us new) ∙ slice_last-snoc limit us u)
      ∙ ap (slice_last limit) (
          updated_old id c s' (ys ++ u ∷ []) found
          ∙ change_first-snoc id c ys u absent (k (new_utterance id s)))
      ∙ fits
      ∙ sym (slice_last-snoc limit us (c u))
      ∙ ap (slice_last limit) (sym (updated_new id cd s us new))

-- Two updates of one utterance are one, for a valid transcript.
pub update_twice :
    (limit : ℕ) (id : String) (c d : Change) (s s' : ℕ) (t : TranscriptStore)
    → KeepsId d
    → IsValid limit t
    → (update limit id c s' (update limit id d s t)).snapshot
      ≡ (update limit id (λ u. c (d u)) s t).snapshot
unfolding update
update_twice limit id c d s s' t k v =
    let us = t.snapshot.utterances in
    ap (λ (l : List Utterance). record { utterances = l; speaking = t.snapshot.speaking })
      (elim (Bool-cases (has_key id_of id us)) [
        | inl old ↦ once_old limit id c d s s' us k v.bounded old
        | inr new ↦ once_new limit id c d s s' us k new
      ])

with_final_twice :
    (p : TranscriptFinal) (u : Utterance) → with_final p (with_final p u) ≡ with_final p u
with_final_twice p u = ground (arith, last?-snoc u.finals p.text, opt_eq_refl (some p.text))

-- A final that comes twice in a row changes nothing the second time. Nothing is said of a final that is
-- sent again after another final of its utterance.
pub transcript_final_twice :
    (limit : ℕ) (m : TranscriptFinalMessage) (t : TranscriptStore)
    → IsValid limit t
    → (on limit (transcript_final m) (on limit (transcript_final m) t)).snapshot
      ≡ (on limit (transcript_final m) t).snapshot
unfolding on
transcript_final_twice limit m t v =
    let p = m.payload in
    update_twice limit p.utterance_id (with_final p) (with_final p) p.start_ms p.start_ms t
      (with_final-KeepsId p) v
    ∙ ap (λ c. (update limit p.utterance_id c p.start_ms t).snapshot) (fun_ext (with_final_twice p))

update_congr :
    (limit : ℕ) (id : String) (c d : Change) (s : ℕ) (t : TranscriptStore) (u : Utterance)
    → find? (λ v. v.id == id) t.snapshot.utterances ≡ some u
    → c u ≡ d u
    → (update limit id c s t).snapshot ≡ (update limit id d s t).snapshot
unfolding update
update_congr limit id c d s t u found e =
    let us = t.snapshot.utterances in
    let old = any_of_find? (λ v. v.id == id) us u found in
    ap
      (λ (l : List Utterance). record {
        utterances = slice_last limit l;
        speaking = t.snapshot.speaking;
      })
      (updated_old id c s us old
        ∙ change_first_congr id c d us u found e
        ∙ sym (updated_old id d s us old))

-- A segment that says the same as the one before it is lost, if a partial of it came first and
-- reached as far: the final is then taken for a replay, and the finals do not grow.
pub repeated_final_lost :
    (limit : ℕ) (q : TranscriptPartialMessage) (m : TranscriptFinalMessage) (t : TranscriptStore)
    (u : Utterance)
    → IsValid limit t
    → m.payload.utterance_id ≡ q.payload.utterance_id
    → find? (λ v. v.id == q.payload.utterance_id) t.snapshot.utterances ≡ some u
    → last? u.finals ≡ some m.payload.text
    → m.payload.end_ms ≤ q.payload.end_ms
    → (on limit (transcript_final m) (on limit (transcript_partial q) t)).snapshot
      ≡ (on limit (transcript_partial q) t).snapshot
unfolding on
repeated_final_lost limit q m t u v same found last reach =
    let p = m.payload in
    let r = q.payload in
    let id = r.utterance_id in
    ap
      (λ i.
        (update limit i (with_final p) p.start_ms
          (update limit id (with_partial r) r.start_ms t)).snapshot)
      same
    ∙ update_twice limit id (with_final p) (with_partial r) r.start_ms p.start_ms t (λ w. refl) v
    ∙ update_congr limit id (λ w. with_final p (with_partial r w)) (with_partial r) r.start_ms t u
        found (ground (arith, opt_eq_iff (last? u.finals) (some p.text)))
