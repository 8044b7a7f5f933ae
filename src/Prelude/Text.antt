-- ===== src/Prelude/Text.antt =====
-- Text: equality, truth and order of strings as the language has them.
use Prim.Native.Char.{code}
use Prim.Native.Nat.{ℕ, ◌+◌, ◌-◌, ◌/◌, ◌%◌}
use Prim.Native.String.{String}
use Prim.Native.String
use mathlib.Core.Bool.{Bool, true, false, not, ◌&&◌, ◌||◌}
use mathlib.Core.List.{List, [], ◌∷◌, ◌++◌}
use mathlib.Core.Logic.{◌↔◌}
use mathlib.Core.Option.{Option, none, some}
use mathlib.Core.Path.{◌≡◌, refl}
use native.Mathlib.Omega.{arith}
use text.Mathlib.Text.{◌==◌ as str_eq}
use text.Mathlib.TextEquality.{eq_iff}
use text.Mathlib.TextLemmas.{append-nil, append_assoc}
use chanx_kit.Prelude.Tests.{ltb, if◌then◌else◌}

-- `a === b` on strings.
infix 50 ◌==◌
unfoldable pub ◌==◌ : String → String → Bool
a == b = str_eq a b

pub ==_iff : (a b : String) → ((a == b) ≡ true) ↔ (a ≡ b)
unfolding ◌==◌
==_iff a b = eq_iff a b

pub ==_refl : (a : String) → (a == a) ≡ true
==_refl a = (==_iff a a).1 refl

pub ==_comm : (a b : String) → (a == b) ≡ (b == a)
==_comm a b = ground (arith, ==_iff a b, ==_iff b a)

-- The string joined by `+`.
unfoldable pub concat : String → String → String
concat a b = String.◌++◌ a b

pub concat_assoc : (a b c : String) → concat (concat a b) c ≡ concat a (concat b c)
unfolding concat
concat_assoc a b c = append_assoc a b c

pub concat_empty : (a : String) → concat a "" ≡ a
unfolding concat
concat_empty a = append-nil a

-- Truth of a string: only the empty one is false.
abbrev pub is_true : String → Bool
is_true String.[] = false
is_true (String.◌∷◌ _ _) = true

-- `===` where either side may be undefined.
abbrev pub opt_eq : Option String → Option String → Bool
opt_eq none none = true
opt_eq none (some b) = false
opt_eq (some a) none = false
opt_eq (some a) (some b) = a == b

pub opt_eq_iff : (a b : Option String) → (opt_eq a b ≡ true) ↔ (a ≡ b)
opt_eq_iff none none = ground arith
opt_eq_iff none (some b) = ground arith
opt_eq_iff (some a) none = ground arith
opt_eq_iff (some a) (some b) = ground (arith, ==_iff a b)

pub opt_eq_refl : (a : Option String) → opt_eq a a ≡ true
opt_eq_refl a = (opt_eq_iff a a).1 refl

-- The UTF-16 units of a string, by which the language orders strings.
abbrev units : ℕ → List ℕ
units c =
    if ltb c 0x10000
    then c ∷ []
    else (0xd800 + (c - 0x10000) / 1024) ∷ (0xdc00 + (c - 0x10000) % 1024) ∷ []

abbrev utf16 : String → List ℕ
utf16 String.[] = []
utf16 (String.◌∷◌ c s) = units (code c) ++ utf16 s

pub lex_gtb : List ℕ → List ℕ → Bool
lex_gtb [] ys = false
lex_gtb (x ∷ xs) [] = true
lex_gtb (x ∷ xs) (y ∷ ys) = ltb y x || (not (ltb x y) && lex_gtb xs ys)

-- `a > b` on strings.
unfoldable pub gtb : String → String → Bool
unfolding lex_gtb
gtb a b = lex_gtb (utf16 a) (utf16 b)

lex_gtb_irrefl : (xs : List ℕ) → lex_gtb xs xs ≡ false
unfolding lex_gtb
lex_gtb_irrefl [] = refl
lex_gtb_irrefl (x ∷ xs) = ground (arith, lex_gtb_irrefl xs)

lex_gtb_trans :
    (xs ys zs : List ℕ) → lex_gtb xs ys ≡ true → lex_gtb ys zs ≡ true → lex_gtb xs zs ≡ true
unfolding lex_gtb
lex_gtb_trans (x ∷ xs) (y ∷ ys) [] h k = refl
lex_gtb_trans (x ∷ xs) (y ∷ ys) (z ∷ zs) h k = ground (arith, lex_gtb_trans xs ys zs)
lex_gtb_trans [] _ _ h k = cc
lex_gtb_trans (x ∷ xs) [] _ h k = cc

pub gtb_irrefl : (a : String) → gtb a a ≡ false
unfolding gtb
gtb_irrefl a = lex_gtb_irrefl (utf16 a)

pub gtb_trans : (a b c : String) → gtb a b ≡ true → gtb b c ≡ true → gtb a c ≡ true
unfolding gtb
gtb_trans a b c h k = lex_gtb_trans (utf16 a) (utf16 b) (utf16 c) h k
