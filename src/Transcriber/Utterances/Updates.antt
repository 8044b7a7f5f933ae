-- ===== src/Transcriber/Utterances/Updates.antt =====
-- What `update` does to the list of utterances.
use chanx_kit.Transcriber.Contract.{TranscriptFinal}
use chanx_kit.Transcriber.Utterances.{
  Utterance, change_first, id_of, with_final, new_utterance, updated,
}
use chanx_kit.Prelude.{
  ==_refl, Distinct, List, String, [], arith, false, find?, has_key, length, refl, some, ◌++◌, ◌==◌,
  ◌∷◌, ◌≡◌, eqb, has_key-drop-false, if_both, kept, suc, true, ℕ, ◌-◌,
}

abbrev pub Change : Type 0
Change = Utterance → Utterance

-- A change keeps the utterance's id.
abbrev pub KeepsId : Change → Type 0
KeepsId c = (u : Utterance) → (c u).id ≡ u.id

pub with_final-KeepsId : (p : TranscriptFinal) → KeepsId (with_final p)
with_final-KeepsId p u = ground arith

module _ (id : String) where
  pub length-change_first :
      (c : Change) (us : List Utterance) → length (change_first id c us) ≡ length us
  unfolding change_first
  length-change_first c [] = refl
  length-change_first c (u ∷ us) = ground (arith, length-change_first c us)

  pub has_key-change_first :
      (c : Change) (j : String) (us : List Utterance)
      → KeepsId c
      → has_key id_of j (change_first id c us) ≡ has_key id_of j us
  unfolding change_first
  has_key-change_first c j [] k = refl
  has_key-change_first c j (u ∷ us) k = ground (arith, k u, has_key-change_first c j us k)

  pub Distinct-change_first :
      (c : Change) (us : List Utterance)
      → KeepsId c
      → Distinct id_of us
      → Distinct id_of (change_first id c us)
  unfolding change_first
  Distinct-change_first c [] k d = tt
  Distinct-change_first c (u ∷ us) k d =
      ground (arith, k u, Distinct-change_first c us k, has_key-change_first c u.id us k)

  -- Two changes of one utterance are one change.
  pub change_first-change_first :
      (c d : Change) (us : List Utterance)
      → KeepsId d
      → change_first id c (change_first id d us) ≡ change_first id (λ u. c (d u)) us
  unfolding change_first
  change_first-change_first c d [] k = refl
  change_first-change_first c d (u ∷ us) k = ground (arith, k u, change_first-change_first c d us k)

  pub change_first-snoc :
      (c : Change) (us : List Utterance) (u : Utterance)
      → has_key id_of id us ≡ false
      → u.id ≡ id
      → change_first id c (us ++ u ∷ []) ≡ us ++ c u ∷ []
  unfolding change_first
  change_first-snoc c [] u h e = rw (e, ==_refl)
  change_first-snoc c (v ∷ us) u h e = ground (arith, change_first-snoc c us u)

  -- Two changes that agree on the first utterance with the id.
  pub change_first_congr :
      (c d : Change) (us : List Utterance) (u : Utterance)
      → find? (λ v. v.id == id) us ≡ some u
      → c u ≡ d u
      → change_first id c us ≡ change_first id d us
  unfolding change_first
  change_first_congr c d [] u h e = refl
  change_first_congr c d (v ∷ us) u h e = ground (arith, change_first_congr c d us u)

  pub updated_old :
      (c : Change) (s : ℕ) (us : List Utterance)
      → has_key id_of id us ≡ true
      → updated id c s us ≡ change_first id c us
  unfolding updated
  updated_old c s us h = rw h

  pub updated_new :
      (c : Change) (s : ℕ) (us : List Utterance)
      → has_key id_of id us ≡ false
      → updated id c s us ≡ us ++ c (new_utterance id s) ∷ []
  unfolding updated
  updated_new c s us h = rw h

  pub has_key-kept-false :
      (n : ℕ) (us : List Utterance)
      → has_key id_of id us ≡ false
      → has_key id_of id (kept n us) ≡ false
  has_key-kept-false n us h =
      if_both (λ l. has_key id_of id l ≡ false) (eqb n 0) h
        (has_key-drop-false id_of (suc (length us) - n) id us h)
