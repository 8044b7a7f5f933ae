-- ===== src/Audio/Resampler/Points.antt =====
-- What one round reads, when a block is joined to another one.
use native.Mathlib.Nat.{zero-add, suc-add, mul-add-div_right, mul-add-mod_self_right}
use chanx_kit.Audio.Resampler.{last_of, point, sample}
use chanx_kit.Prelude.{
  List, [], ap, arith, length, ltb, refl, suc, sym, true, zero, ℕ, ◌%◌, ◌*◌, ◌++◌, ◌+◌, ◌-◌, ◌/◌,
  ◌<◌, ◌∙◌, ◌∷◌, ◌≡◌, ◌≤◌,
}

pub index_lt : (to n position : ℕ) → 0 < to → position < n * to → position / to < n
index_lt to n position p h = grind arith

index_shift :
    (to n position : ℕ)
    → 0 < to
    → n * to ≤ position
    → (position / to ≡ n + (position - n * to) / to) × (position % to ≡ (position - n * to) % to)
index_shift to n position p h =
    let e : position ≡ n * to + (position - n * to) = omega arith in
    (
      ap (λ q. q / to) e ∙ mul-add-div_right p n (position - n * to),
      ap (λ q. q % to) e ∙ mul-add-mod_self_right n to (position - n * to),
    )

positive : (n : ℕ) → ltb 0 (suc n) ≡ true
positive n = ground arith

module _ {A : Type 0} (silence : A) where
  sample-cons :
      (last x : A) (xs : List A) (index : ℕ)
      → sample silence last (x ∷ xs) (suc index) ≡ sample silence x xs index
  sample-cons last x xs zero = refl
  sample-cons last x xs (suc index) = refl

  last_of-cons : (last x : A) (xs : List A) → last_of silence last (x ∷ xs) ≡ last_of silence x xs
  last_of-cons last x [] = refl
  last_of-cons last x (y ∷ ys) =
      let e : suc (suc (length ys)) - 1 ≡ suc (length ys) = omega arith in
      let d : suc (length ys) - 1 ≡ length ys = omega arith in
      rw (e, d, positive (suc (length ys)), positive (length ys)) refl

  pub last_of-append :
      (last : A) (xs ys : List A)
      → last_of silence last (xs ++ ys) ≡ last_of silence (last_of silence last xs) ys
  last_of-append last [] ys = refl
  last_of-append last (x ∷ xs) ys =
      last_of-cons last x (xs ++ ys)
      ∙ last_of-append x xs ys
      ∙ ap (λ l. last_of silence l ys) (sym (last_of-cons last x xs))

  sample-append_left :
      (last : A) (xs ys : List A) (index : ℕ)
      → index ≤ length xs
      → sample silence last (xs ++ ys) index ≡ sample silence last xs index
  sample-append_left last xs ys zero h = refl
  sample-append_left last [] ys (suc index) h = absurd (omega arith)
  sample-append_left last (x ∷ xs) ys (suc index) h =
      sample-cons last x (xs ++ ys) index
      ∙ sample-append_left x xs ys index (omega arith)
      ∙ sym (sample-cons last x xs index)

  sample-append_right :
      (last : A) (xs ys : List A) (index : ℕ)
      → sample silence last (xs ++ ys) (length xs + index)
        ≡ sample silence (last_of silence last xs) ys index
  sample-append_right last [] ys index = rw zero-add
  sample-append_right last (x ∷ xs) ys index =
      rw (suc-add, sample-cons last x (xs ++ ys) (length xs + index), last_of-cons)
        (sample-append_right x xs ys index)

  module _ (between : A → A → ℕ → ℕ → A) (to : ℕ) where
    pub point-append_left :
        (last : A) (xs ys : List A) (position : ℕ)
        → 0 < to
        → position < length xs * to
        → point silence between to last (xs ++ ys) position
          ≡ point silence between to last xs position
    point-append_left last xs ys position p h =
        let l = index_lt to (length xs) position p h in
        rw (
          sample-append_left last xs ys (position / to) (omega arith),
          sample-append_left last xs ys (position / to + 1) (omega arith),
        )

    pub point-append_right :
        (last : A) (xs ys : List A) (position : ℕ)
        → 0 < to
        → length xs * to ≤ position
        → point silence between to last (xs ++ ys) position
          ≡ point silence between to (last_of silence last xs) ys (position - length xs * to)
    point-append_right last xs ys position p h =
        let (e, f) = index_shift to (length xs) position p h in
        let j = (position - length xs * to) / to in
        let a : length xs + j + 1 ≡ length xs + (j + 1) = omega arith in
        rw (e, f, a, sample-append_right last xs ys j, sample-append_right last xs ys (j + 1))
