-- ===== src/Audio/Resampler/Walks.antt =====
-- One run of the loop: its fuel is enough, and a run over a longer block is two runs.
use native.Mathlib.Nat.{add-mul}
use chanx_kit.Audio.Resampler.{last_of, point, walk}
use chanx_kit.Audio.Resampler.Points.{point-append_left, point-append_right}
use chanx_kit.Prelude.{
  List, [], ap, arith, inl, inr, le-or-lt, length, length-append, max, refl, suc, zero, ℕ, ◌*◌,
  ◌++◌, ◌+◌, ◌-◌, ◌<◌, ◌∷◌, ◌≡◌, ◌≤◌,
}

pub parts-append {ℓ} :
    {A : Type ℓ} (to : ℕ) (xs ys : List A)
    → length (xs ++ ys) * to ≡ length xs * to + length ys * to
parts-append to xs ys = rw (length-append xs ys) (add-mul (length xs) (length ys) to)

-- A run that is another one behind `done`, with its positions `n` further on.
pub record IsBehind {A : Type 0} (done : List A) (n : ℕ) (rest whole : List A × ℕ) : Type 0 where
  pub out : whole.0 ≡ done ++ rest.0
  pub stop : whole.1 ≡ n + rest.1

module _ {A : Type 0} (silence : A) (between : A → A → ℕ → ℕ → A) (from to : ℕ) where
  abbrev run : ℕ → A → List A → ℕ → List A × ℕ
  run fuel = walk silence between fuel from to

  pub run_stop :
      (fuel : ℕ) (last : A) (input : List A) (position : ℕ)
      → length input * to ≤ position
      → run fuel last input position ≡ ([], position)
  unfolding walk
  run_stop zero last input position h = refl
  run_stop (suc fuel) last input position h = ground arith

  pub run_step :
      (fuel : ℕ) (last : A) (input : List A) (position : ℕ)
      → position < length input * to
      → let rest = run fuel last input (position + from) in
        run (suc fuel) last input position
        ≡ (point silence between to last input position ∷ rest.0, rest.1)
  unfolding walk
  run_step fuel last input position h = ground arith

  second_stops :
      (f h : ℕ) (last : A) (xs ys : List A) (position : ℕ)
      → length xs * to ≤ position
      → length (xs ++ ys) * to ≤ position
      → IsBehind []
          (length xs * to)
          (run h (last_of silence last xs) ys (position - length xs * to))
          (run f last (xs ++ ys) position)
  second_stops f h last xs ys position k stops =
      rw
        (
          run_stop f last (xs ++ ys) position stops,
          run_stop h (last_of silence last xs) ys (position - length xs * to)
              (omega (arith, parts-append to xs ys)),
        )
        (record { out = refl; stop = omega arith })

  run_second :
      (f h : ℕ) (last : A) (xs ys : List A) (position : ℕ)
      → 0 < from
      → 0 < to
      → length xs * to ≤ position
      → length (xs ++ ys) * to ≤ f + position
      → length ys * to ≤ h + (position - length xs * to)
      → IsBehind []
          (length xs * to)
          (run h (last_of silence last xs) ys (position - length xs * to))
          (run f last (xs ++ ys) position)
  run_second zero h last xs ys position p q k l m =
      second_stops 0 h last xs ys position k (omega arith)
  run_second (suc f) zero last xs ys position p q k l m =
      second_stops (suc f) 0 last xs ys position k (omega (arith, parts-append to xs ys))
  run_second (suc f) (suc h) last xs ys position p q k l m =
      elim (le-or-lt (length (xs ++ ys) * to) position) [
        | inl stops ↦ second_stops (suc f) (suc h) last xs ys position k stops
        | inr goes ↦
            let e : position + from - length xs * to ≡ position - length xs * to + from =
              omega arith in
            let ih =
              run_second f h last xs ys (position + from) p q (omega arith) (omega arith)
                (omega arith) in
            rw
              (
                run_step f last (xs ++ ys) position goes,
                run_step h (last_of silence last xs) ys (position - length xs * to)
                    (omega (arith, parts-append to xs ys)),
                point-append_right silence between to last xs ys position q k,
                ← e,
              )
              (record {
                out =
                    ap
                      (◌∷◌ (
                        point silence between to (last_of silence last xs) ys
                          (position - length xs * to)))
                      ih.out;
                stop = ih.stop;
              })
      ]

  -- With enough fuel in each run, a run over a block joined to another one is a run over the first
  -- and then a run over the second, from where the first stopped.
  pub walk-append :
      (f g h : ℕ) (last : A) (xs ys : List A) (position : ℕ)
      → 0 < from
      → 0 < to
      → length (xs ++ ys) * to ≤ f + position
      → length xs * to ≤ g + position
      → length ys * to ≤ h
      → let a = run g last xs position in
        IsBehind a.0
          (length xs * to)
          (run h (last_of silence last xs) ys (a.1 - length xs * to))
          (run f last (xs ++ ys) position)
  walk-append f zero h last xs ys position p q l m n =
      rw (run_stop 0 last xs position (omega arith))
        (run_second f h last xs ys position p q (omega arith) l (omega arith))
  walk-append zero (suc g) h last xs ys position p q l m n =
      let stops : length xs * to ≤ position = omega (arith, parts-append to xs ys) in
      rw (run_stop (suc g) last xs position stops)
        (run_second 0 h last xs ys position p q stops l (omega arith))
  walk-append (suc f) (suc g) h last xs ys position p q l m n =
      elim (le-or-lt (length xs * to) position) [
        | inl stops ↦
            rw (run_stop (suc g) last xs position stops)
              (run_second (suc f) h last xs ys position p q stops l (omega arith))
        | inr goes ↦
            let ih =
              walk-append f g h last xs ys (position + from) p q (omega arith) (omega arith) n in
            rw
              (
                run_step f last (xs ++ ys) position (omega (arith, parts-append to xs ys)),
                run_step g last xs position goes,
                point-append_left silence between to last xs ys position q goes,
              )
              (record {
                out = ap (◌∷◌ (point silence between to last xs position)) ih.out;
                stop = ih.stop;
              })
      ]

  -- With a positive step and as much fuel as there are parts up to the end of the block, the loop ends
  -- by its own test: it stops at the end of the block or beyond it by less than a step, or at once,
  -- and each sample put out took one step.
  pub walk_stops :
      (fuel : ℕ) (last : A) (input : List A) (position : ℕ)
      → 0 < from
      → length input * to ≤ fuel + position
      → (length input * to ≤ (run fuel last input position).1)
        × ((run fuel last input position).1
            ≡ position + length (run fuel last input position).0 * from)
        × ((run fuel last input position).1 < max (position + 1) (length input * to + from))
  unfolding walk
  walk_stops zero last input position p l = (omega arith, omega arith, omega arith)
  walk_stops (suc fuel) last input position p l = elim (le-or-lt (length input * to) position) [
    | inl stops ↦
        rw (run_stop (suc fuel) last input position stops) (stops, omega arith, omega arith)
    | inr goes ↦
        let (a, b, c) = walk_stops fuel last input (position + from) p (omega arith) in
        rw (run_step fuel last input position goes) (a, grind (arith, b), omega (arith, c))
  ]
