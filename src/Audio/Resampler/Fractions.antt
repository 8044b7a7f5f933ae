-- ===== src/Audio/Resampler/Fractions.antt =====
-- The resampler on samples that are fractions.
use native.Mathlib.Nat.{mul-le-mul_right}
use chanx_kit.Audio.Resampler.{Resampler, element, last_of, process, resample, sample, walk}
use chanx_kit.Audio.Pcm.{Sample}
use chanx_kit.Prelude.{
  pos, All, List, [], arith, eqb, if_both, length, ltb, neg_part, pos_part, sub_ℕ_le, suc, times,
  zero, ℕ, ℤ, ◌%◌, ◌*◌, ◌+ℤ◌, ◌+◌, ◌-◌, ◌/◌, ◌<◌, ◌∷◌, ◌≡◌, ◌≤◌,
}

abbrev pub silence : Sample
silence = record { num = pos 0; den = 1 }

-- `a + (b - a) * t` at t = n / d, for n below d: (a * (d - n) + b * n) / d.
unfoldable pub between : Sample → Sample → ℕ → ℕ → Sample
between a b n d = record {
  num = times (b.den * (d - n)) a.num +ℤ times (a.den * n) b.num;
  den = a.den * b.den * d;
}

-- Between -1 and 1, with a denominator.
pub record IsSound (s : Sample) : Type 0 where
  pub real : 0 < s.den
  pub above : pos_part s.num ≤ s.den
  pub below : neg_part s.num ≤ s.den

positive_mul : (a b : ℕ) → 0 < a → 0 < b → 0 < a * b
positive_mul a b h k = grind arith

mean_le : (p q a b n d : ℕ) → p ≤ a → q ≤ b → n ≤ d → p * (b * (d - n)) + q * (a * n) ≤ a * b * d
mean_le p q a b n d h k l =
    let e = d - n in
    let f : d ≡ e + n = omega arith in
    let g : a * b * (e + n) ≡ a * (b * e) + b * (a * n) = grind arith in
    let i : p * (b * e) ≤ a * (b * e) = mul-le-mul_right (b * e) h in
    let j : q * (a * n) ≤ b * (a * n) = mul-le-mul_right (a * n) k in
    let m : p * (b * e) + q * (a * n) ≤ a * b * (e + n) = omega (arith, i, j, g) in rw (← f) at m

-- The parts of the sum of two multiples.
sum_le :
    (x y : ℤ) (k l : ℕ)
    → (pos_part (times k x +ℤ times l y) ≤ pos_part x * k + pos_part y * l)
      × (neg_part (times k x +ℤ times l y) ≤ neg_part x * k + neg_part y * l)
sum_le x y k l =
    let (a, b) = sub_ℕ_le (pos_part x * k) (neg_part x * k) in
    let (c, d) = sub_ℕ_le (pos_part y * l) (neg_part y * l) in
    let (e, f) =
      sub_ℕ_le (pos_part (times k x) + pos_part (times l y))
        (neg_part (times k x) + neg_part (times l y)) in
    (omega (arith, a, c, e), omega (arith, b, d, f))

-- A sample on the line between two lies between -1 and 1 if they do.
pub between-IsSound :
    (a b : Sample) (n d : ℕ) → IsSound a → IsSound b → n < d → IsSound (between a b n d)
unfolding between
between-IsSound a b n d u v h =
    let (p, q) = sum_le a.num b.num (b.den * (d - n)) (a.den * n) in
    let up =
      mean_le (pos_part a.num) (pos_part b.num) a.den b.den n d u.above v.above (omega arith) in
    let down =
      mean_le (neg_part a.num) (neg_part b.num) a.den b.den n d u.below v.below (omega arith) in
    record {
      real = positive_mul (a.den * b.den) d (positive_mul a.den b.den u.real v.real) (omega arith);
      above = omega (arith, p, up);
      below = omega (arith, q, down);
    }

module _ {A : Type 0} (P : A → Type 0) (quiet : A) (q : P quiet) where
  element_has : (xs : List A) (n : ℕ) → All P xs → P (element quiet xs n)
  element_has [] n h = q
  element_has (x ∷ xs) zero h = h.0
  element_has (x ∷ xs) (suc n) h = element_has xs n h.1

  sample_has : (last : A) (xs : List A) (n : ℕ) → P last → All P xs → P (sample quiet last xs n)
  sample_has last xs zero l h = l
  sample_has last xs (suc n) l h = element_has xs n h

  last_of_has : (last : A) (xs : List A) → P last → All P xs → P (last_of quiet last xs)
  last_of_has last xs l h = if_both P (ltb 0 (length xs)) (element_has xs (length xs - 1) h) l

  -- What holds of the samples, and of what stands between two, holds of all that a run puts out.
  walk_has :
      (mean : A → A → ℕ → ℕ → A)
      → ((a b : A) (n d : ℕ) → P a → P b → n < d → P (mean a b n d))
      → (fuel from to : ℕ) (last : A) (xs : List A) (position : ℕ) → 0 < to
      → P last
      → All P xs
      → All P (walk quiet mean fuel from to last xs position).0
  unfolding walk
  walk_has mean m zero from to last xs position h l a = tt
  walk_has mean m (suc fuel) from to last xs position h l a =
      let i = position / to in
      if_both (λ (s : List A × ℕ). All P s.0) (ltb position (length xs * to))
        (
          m (sample quiet last xs i) (sample quiet last xs (i + 1)) (position % to) to
              (sample_has last xs i l a) (sample_has last xs (i + 1) l a) (omega arith),
          walk_has mean m fuel from to last xs (position + from) h l a,
        )
        tt

-- What the resampler puts out lies between -1 and 1, if its input and what it has kept do.
pub process-IsSound :
    (input : List Sample) (r : Resampler Sample)
    → 0 < r.to
    → IsSound r.last
    → All IsSound input
    → All IsSound (process silence between input r).0
      × IsSound (process silence between input r).1.last
unfolding process resample
process-IsSound input r h l a =
    let z : IsSound silence = record {
      real = omega arith;
      above = omega arith;
      below = omega arith;
    } in
    if_both (λ (s : List Sample × Resampler Sample). All IsSound s.0 × IsSound s.1.last)
      (eqb r.from r.to) (a, l)
      (
        walk_has IsSound silence z between between-IsSound (length input * r.to) r.from r.to r.last
            input r.position h l a,
        last_of_has IsSound silence z r.last input l a,
      )
