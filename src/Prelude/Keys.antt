-- ===== src/Prelude/Keys.antt =====
-- Lists of items with a text for a key: distinct keys, and how the list operations keep them.
use Prim.Native.Nat.{ℕ, zero, suc}
use Prim.Native.String.{String}
use mathlib.Core.Bool.{Bool, false, not, ◌&&◌, ◌||◌}
use mathlib.Core.List.{List, [], ◌∷◌, ◌++◌}
use mathlib.Core.Path.{◌≡◌, refl}
use native.Mathlib.Omega.{arith}
use chanx_kit.Prelude.Lists.{take, drop, filter, any, any-append}
use chanx_kit.Prelude.Text.{◌==◌, ==_iff, ==_comm}

module _ {ℓ} {A : Type ℓ} (key : A → String) where
  -- Some item has this key.
  abbrev pub has_key : String → List A → Bool
  has_key k = any (λ x. key x == k)

  -- No two items have one key.
  abbrev pub Distinct : List A → Type 0
  Distinct [] = Unit
  Distinct (x ∷ xs) = (has_key (key x) xs ≡ false) × Distinct xs

  -- The items with another key.
  abbrev pub without : String → List A → List A
  without k = filter (λ x. not (key x == k))

  pub has_key-filter-false :
      (p : A → Bool) (k : String) (xs : List A)
      → has_key k xs ≡ false
      → has_key k (filter p xs) ≡ false
  has_key-filter-false p k [] h = refl
  has_key-filter-false p k (x ∷ xs) h = ground (arith, has_key-filter-false p k xs)

  pub Distinct-filter : (p : A → Bool) (xs : List A) → Distinct xs → Distinct (filter p xs)
  Distinct-filter p [] h = tt
  Distinct-filter p (x ∷ xs) h =
      ground (arith, Distinct-filter p xs h.1, has_key-filter-false p (key x) xs h.0)

  pub has_key-without : (k : String) (xs : List A) → has_key k (without k xs) ≡ false
  has_key-without k [] = refl
  has_key-without k (x ∷ xs) = ground (arith, has_key-without k xs)

  pub has_key-without_ne :
      (k j : String) (xs : List A) → (j == k) ≡ false → has_key j (without k xs) ≡ has_key j xs
  has_key-without_ne k j [] h = refl
  has_key-without_ne k j (x ∷ xs) h =
      ground (arith, has_key-without_ne k j xs, ==_iff (key x) k, ==_iff (key x) j, ==_iff j k)

  pub has_key-without_lem :
      (k j : String) (xs : List A) → has_key j (without k xs) ≡ (not (j == k) && has_key j xs)
  has_key-without_lem k j [] = ground arith
  has_key-without_lem k j (x ∷ xs) =
      ground (arith, has_key-without_lem k j xs, ==_iff (key x) k, ==_iff (key x) j, ==_iff j k)

  pub without_absent : (k : String) (xs : List A) → has_key k xs ≡ false → without k xs ≡ xs
  without_absent k [] h = refl
  without_absent k (x ∷ xs) h = ground (arith, without_absent k xs)

  pub has_key-take-false :
      (n : ℕ) (k : String) (xs : List A) → has_key k xs ≡ false → has_key k (take n xs) ≡ false
  has_key-take-false zero k xs h = refl
  has_key-take-false (suc n) k [] h = refl
  has_key-take-false (suc n) k (x ∷ xs) h = ground (arith, has_key-take-false n k xs)

  pub Distinct-take : (n : ℕ) (xs : List A) → Distinct xs → Distinct (take n xs)
  Distinct-take zero xs h = tt
  Distinct-take (suc n) [] h = tt
  Distinct-take (suc n) (x ∷ xs) h = (has_key-take-false n (key x) xs h.0, Distinct-take n xs h.1)

  pub Distinct-drop : (n : ℕ) (xs : List A) → Distinct xs → Distinct (drop n xs)
  Distinct-drop zero xs h = h
  Distinct-drop (suc n) [] h = tt
  Distinct-drop (suc n) (x ∷ xs) h = Distinct-drop n xs h.1

  pub Distinct-snoc :
      (xs : List A) (x : A) → Distinct xs → has_key (key x) xs ≡ false → Distinct (xs ++ x ∷ [])
  Distinct-snoc [] x d h = (refl, tt)
  Distinct-snoc (y ∷ ys) x d h = ground (
    arith,
    Distinct-snoc ys x,
    any-append (λ z. key z == key y) ys (x ∷ []),
    ==_comm (key x) (key y),
  )

  pub has_key-drop-false :
      (n : ℕ) (k : String) (xs : List A) → has_key k xs ≡ false → has_key k (drop n xs) ≡ false
  has_key-drop-false zero k xs h = h
  has_key-drop-false (suc n) k [] h = refl
  has_key-drop-false (suc n) k (x ∷ xs) h = has_key-drop-false n k xs (ground arith)

  pub has_key-snoc :
      (k : String) (xs : List A) (x : A) → has_key k (xs ++ x ∷ []) ≡ (has_key k xs || key x == k)
  has_key-snoc k [] x = ground arith
  has_key-snoc k (y ∷ ys) x = ground (arith, has_key-snoc k ys x)
