-- ===== src/Audio/Resampler/Lines.antt =====
-- What each sample of the output is, after the ideal definition of linear interpolation.
use native.Mathlib.Nat.{mul-add-div_right, mul-add-mod_self_right}
use chanx_kit.Audio.Resampler.Blocks.{create-IsValid, process_all-process, process_other}
use chanx_kit.Audio.Resampler.Points.{index_lt}
use chanx_kit.Audio.Resampler.Walks.{run_step, run_stop}
use chanx_kit.Audio.Resampler.{create, element, point, process_all, walk, resample}
use chanx_kit.Prelude.{
  List, [], ap, arith, flat, get_elem?, inl, inr, le-or-lt, length, refl, some, suc, zero, ℕ, ◌%◌,
  ◌*◌, ◌+◌, ◌/◌, ◌<◌, ◌∷◌, ◌≡◌, ◌≢◌, ◌∙◌,
}

module _ {A : Type 0} (silence : A) (between : A → A → ℕ → ℕ → A) where
  element_lem : (xs : List A) (n : ℕ) → n < length xs → get_elem? xs n ≡ some (element silence xs n)
  element_lem [] n h = absurd (omega arith)
  element_lem (x ∷ xs) zero h = refl
  element_lem (x ∷ xs) (suc n) h = element_lem xs n (omega arith)

  module _ (from to : ℕ) where
    abbrev run : ℕ → A → List A → ℕ → List A × ℕ
    run fuel = walk silence between fuel from to

    -- Sample k of a run stands k steps after its start.
    IsPoint : A → List A → ℕ → ℕ → List A → Type 0
    IsPoint last input position k out =
        (get_elem? out k ≡ some (point silence between to last input (position + k * from)))
        × (position + k * from < length input * to)

    run_points :
        (fuel : ℕ) (last : A) (input : List A) (position k : ℕ)
        → k < length (run fuel last input position).0
        → IsPoint last input position k (run fuel last input position).0
    unfolding walk IsPoint
    run_points zero last input position k h = absurd (omega arith)
    run_points (suc fuel) last input position k h = elim (le-or-lt (length input * to) position) [
      | inl stops ↦ absurd (
          omega (
            arith,
            h,
            ap (λ (o : List A × ℕ). length o.0)
                (run_stop silence between from to (suc fuel) last input position stops),
          ))
      | inr goes ↦
          let e = run_step silence between from to fuel last input position goes in
          rw e (after_step k goes (rw e at h) (λ j. run_points fuel last input (position + from) j))
    ]
      where
        after_step :
            (k : ℕ)
            → position < length input * to
            → k < suc (length (run fuel last input (position + from)).0)
            → ((j : ℕ)
                → j < length (run fuel last input (position + from)).0
                → IsPoint last input (position + from) j (run fuel last input (position + from)).0)
            → IsPoint last input position k (
                point silence between to last input position
                ∷ (run fuel last input (position + from)).0)
        after_step zero goes h ih =
            let z : position + 0 * from ≡ position = omega arith in rw z (refl, goes)
        after_step (suc k) goes h ih =
            let z : position + from + k * from ≡ position + suc k * from = grind arith in
            rw (← z) (ih k (omega arith))

  -- At the start of a stream a point lies between two samples of the stream.
  point_start :
      (from to k : ℕ) (input out : List A)
      → 0 < to
      → IsPoint from to silence input to k out
      → (x : A) × (y : A) × (get_elem? input (k * from / to) ≡ some x)
        × (get_elem? input (k * from / to + 1) ≡ some y)
        × (get_elem? out k ≡ some (between x y (k * from % to) to))
  unfolding IsPoint
  point_start from to k input out l h =
      let i = k * from / to in
      let e : to + k * from ≡ 1 * to + k * from = omega arith in
      let d : (to + k * from) / to ≡ suc i =
        ap (λ q. q / to) e ∙ mul-add-div_right l 1 (k * from) ∙ omega arith in
      let m : (to + k * from) % to ≡ k * from % to =
        ap (λ q. q % to) e ∙ mul-add-mod_self_right 1 to (k * from) in
      let c = index_lt to (length input) (to + k * from) l h.1 in
      let s : suc i + 1 ≡ suc (i + 1) = omega arith in
      (
        element silence input i,
        element silence input (i + 1),
        element_lem input i (omega arith),
        element_lem input (i + 1) (omega arith),
        rw (d, m, s) at h.0,
      )

  -- Output sample k of a stream that begins, at positive rates that differ, lies on the line between two
  -- neighbouring samples of the stream, those around the time k * from / to, at that time; both are
  -- samples of the stream, however it was split into blocks.
  pub get_elem?-process_all :
      (blocks : List (List A)) (from to k : ℕ)
      → 0 < from
      → 0 < to
      → from ≢ to
      → let out = (process_all silence between blocks (create silence from to)).0 in
        let input = flat blocks in
        k < length out
        → (x : A) × (y : A) × (get_elem? input (k * from / to) ≡ some x)
          × (get_elem? input (k * from / to + 1) ≡ some y)
          × (get_elem? out k ≡ some (between x y (k * from % to) to))
  unfolding create resample
  get_elem?-process_all blocks from to k h l e m =
      let r = create silence from to in
      let input = flat blocks in
      let v = create-IsValid silence from to h l in
      let whole =
        process_all-process silence between blocks r v ∙ process_other silence between input r e in
      rw whole (
        point_start from to k input (run from to (length input * to) silence input to).0 l
          (run_points from to (length input * to) silence input to k (rw whole at m)))
