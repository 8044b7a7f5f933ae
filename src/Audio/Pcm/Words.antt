-- ===== src/Audio/Pcm/Words.antt =====
-- One sample: its 16 bits, and what they stand for.
use native.Mathlib.Nat.{div-le_of_le-mul}
use chanx_kit.Audio.Pcm.{Sample, signed, word}
use chanx_kit.Prelude.{
  pos, negsuc, arith, min, neg_part, pos_part, refl, suc, ℕ, ◌%◌, ◌*◌, ◌+◌, ◌-◌, ◌/◌, ◌<◌, ◌≡◌, ◌≤◌,
}

-- The sample that is read back where `s` was written.
abbrev pub quantised : Sample → Sample
quantised s = record { num = signed (word s); den = 0x8000 }

-- y is s, clamped, or nearer to 0 than it by less than `steps` / 0x8000.
pub record IsClose (s y : Sample) (steps : ℕ) : Type 0 where
  pub scale : y.den ≡ 0x8000
  pub above : pos_part y.num * s.den ≤ min (pos_part s.num) s.den * 0x8000
  pub near_above : min (pos_part s.num) s.den * 0x8000 < (pos_part y.num + steps) * s.den
  pub below : neg_part y.num * s.den ≤ min (neg_part s.num) s.den * 0x8000
  pub near_below : min (neg_part s.num) s.den * 0x8000 < (neg_part y.num + steps) * s.den

div_le : (a b : ℕ) → 0 < b → (a / b * b ≤ a) × (a < a / b * b + b)
div_le a b h = grind arith

abbrev up : ℕ → ℕ → ℕ
up n d = min n d * 0x7fff / d

abbrev down : ℕ → ℕ → ℕ
down n d = suc (min n (d - 1)) * 0x8000 / d

up_le : (n d : ℕ) → up n d ≤ 0x7fff
up_le n d = div-le_of_le-mul d (omega arith)

down_le : (n d : ℕ) → 0 < d → down n d ≤ 0x8000
down_le n d h = div-le_of_le-mul d (omega arith)

word_pos : (n d : ℕ) → word (record { num = pos n; den = d }) ≡ up n d
unfolding word
word_pos n d = omega (arith, up_le n d)

word_negsuc : (n d : ℕ) → word (record { num = negsuc n; den = d }) ≡ (0x10000 - down n d) % 0x10000
unfolding word
word_negsuc n d = refl

pub word_lt : (s : Sample) → word s < 0x10000
unfolding word
word_lt s = elim s.num as (λ num. word (record { num = num; den = s.den }) < 0x10000) [
  | pos n ↦ omega arith
  | negsuc n ↦ omega arith
]

signed-word_pos : (n d : ℕ) → signed (word (record { num = pos n; den = d })) ≡ pos (up n d)
signed-word_pos n d = ground (arith, word_pos n d, up_le n d)

-- The parts of what a negative sample is read back as.
signed-word_negsuc :
    (n d : ℕ)
    → 0 < d
    → let y = signed (word (record { num = negsuc n; den = d })) in
      (pos_part y ≡ 0) × (neg_part y ≡ down n d)
signed-word_negsuc n d h = ground (arith, word_negsuc n d, down_le n d h)

IsClose-pos :
    (n d : ℕ)
    → 0 < d
    → IsClose (record { num = pos n; den = d }) (quantised (record { num = pos n; den = d })) 2
IsClose-pos n d h =
    let (a, b) = div_le (min n d * 0x7fff) d h in
    rw signed-word_pos (record {
      scale = refl;
      above = omega arith;
      near_above = grind arith;
      below = omega arith;
      near_below = omega arith;
    })

IsClose-negsuc :
    (n d : ℕ)
    → 0 < d
    → IsClose
        (record { num = negsuc n; den = d })
        (quantised (record { num = negsuc n; den = d }))
        2
IsClose-negsuc n d h =
    let (a, b) = div_le (suc (min n (d - 1)) * 0x8000) d h in
    let (p, q) = signed-word_negsuc n d h in
    let e : suc (min n (d - 1)) ≡ min (suc n) d = omega arith in
    record {
      scale = refl;
      above = rw p (omega arith);
      near_above = rw p (omega arith);
      below = rw q (omega arith);
      near_below = rw q (grind arith);
    }

-- A sample is read back as a number that is as near to 0 as it, or nearer by less than two steps.
pub quantised-IsClose : (s : Sample) → 0 < s.den → IsClose s (quantised s) 2
quantised-IsClose s h =
    elim s.num
      as (λ num.
        IsClose (record { num = num; den = s.den }) (quantised (record { num = num; den = s.den }))
          2) [ pos n ↦ IsClose-pos n s.den h | negsuc n ↦ IsClose-negsuc n s.den h ]
