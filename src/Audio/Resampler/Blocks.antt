-- ===== src/Audio/Resampler/Blocks.antt =====
-- A stream of blocks: what is put out does not depend on how the stream was split, and how much it
-- is.
use mathlib.Core.Path.{ap₂}
use chanx_kit.Audio.Resampler.{Resampler, create, process, resample, walk, process_all}
use chanx_kit.Audio.Resampler.Points.{last_of-append}
use chanx_kit.Audio.Resampler.Walks.{parts-append, walk-append, walk_stops}
use chanx_kit.Prelude.{
  Bool-cases, List, arith, eqb, inl, inr, length, refl, ℕ, ◌*◌, ◌++◌, ◌<◌, ◌≡◌, [], flat, if_both,
  if_false, if_true, sym, ◌∷◌, ◌≢◌, max, ◌+◌, ◌-◌, ◌≤◌,
}

pub record IsValid {A : Type 0} (r : Resampler A) : Type 0 where
  pub reads : 0 < r.from
  pub writes : 0 < r.to

module _ {A : Type 0} (silence : A) where
  pub create-IsValid : (from to : ℕ) → 0 < from → 0 < to → IsValid (create silence from to)
  unfolding create
  create-IsValid from to h k = record { reads = h; writes = k }

module _ {A : Type 0} (silence : A) (between : A → A → ℕ → ℕ → A) where
  abbrev run : ℕ → Resampler A → List A → List A × ℕ
  run fuel r input = walk silence between fuel r.from r.to r.last input r.position

  resample-append :
      (xs ys : List A) (r : Resampler A)
      → IsValid r
      → let a = resample silence between xs r in
        let b = resample silence between ys a.1 in
        resample silence between (xs ++ ys) r ≡ (a.0 ++ b.0, b.1)
  unfolding resample
  resample-append xs ys r v =
      let whole = length (xs ++ ys) * r.to in
      let first = length xs * r.to in
      let second = length ys * r.to in
      let b =
        walk-append silence between r.from r.to whole first second r.last xs ys r.position v.reads
          v.writes (omega arith) (omega arith) (omega arith) in
      ap₂ (λ (o : List A) (s : Resampler A). (o, s)) b.out
        (ap₂ (λ p l. record r { position = p; last = l })
          (omega (arith, b.stop, parts-append r.to xs ys)) (last_of-append silence r.last xs ys))

  -- At equal rates the samples pass through.
  pub process_same :
      (input : List A) (r : Resampler A)
      → r.from ≡ r.to
      → process silence between input r ≡ (input, r)
  unfolding process
  process_same input r h = if_true (eqb r.from r.to) _ _ (ground arith)

  pub process_other :
      (input : List A) (r : Resampler A)
      → r.from ≢ r.to
      → process silence between input r ≡ resample silence between input r
  unfolding process
  process_other input r h = if_false (eqb r.from r.to) _ _ (ground arith)

  rates-resample :
      (input : List A) (r : Resampler A)
      → ((resample silence between input r).1.from ≡ r.from)
        × ((resample silence between input r).1.to ≡ r.to)
  unfolding resample
  rates-resample input r = (refl, refl)

  pub rates-process :
      (input : List A) (r : Resampler A)
      → ((process silence between input r).1.from ≡ r.from)
        × ((process silence between input r).1.to ≡ r.to)
  unfolding process
  rates-process input r =
      if_both (λ (s : List A × Resampler A). (s.1.from ≡ r.from) × (s.1.to ≡ r.to))
        (eqb r.from r.to) (refl, refl) (rates-resample input r)

  process-IsValid :
      (input : List A) (r : Resampler A) → IsValid r → IsValid (process silence between input r).1
  process-IsValid input r v =
      let (e, f) = rates-process input r in
      record { reads = omega (arith, v.reads); writes = omega (arith, v.writes) }

  process-append :
      (xs ys : List A) (r : Resampler A)
      → IsValid r
      → let a = process silence between xs r in
        let b = process silence between ys a.1 in
        process silence between (xs ++ ys) r ≡ (a.0 ++ b.0, b.1)
  process-append xs ys r v = elim (Bool-cases (eqb r.from r.to)) [
    | inl same ↦
        let e : r.from ≡ r.to = ground arith in
        rw (process_same (xs ++ ys) r e, process_same xs r e, process_same ys r e) refl
    | inr differs ↦
        let e : r.from ≢ r.to = ground arith in
        let r' = (resample silence between xs r).1 in
        let (p, q) = rates-resample xs r in
        let e' : r'.from ≢ r'.to = rw (p, q) e in
        rw (process_other (xs ++ ys) r e, process_other xs r e, process_other ys r' e')
          (resample-append xs ys r v)
  ]

  resample-nil : (r : Resampler A) → resample silence between [] r ≡ ([], r)
  unfolding resample walk
  resample-nil r =
      let z : 0 * r.to ≡ 0 = omega arith in
      let e : r.position - 0 ≡ r.position = omega arith in rw (z, e) refl

  process-nil : (r : Resampler A) → process silence between [] r ≡ ([], r)
  unfolding process
  process-nil r = if_both (λ s. s ≡ ([], r)) (eqb r.from r.to) refl (resample-nil r)

  -- At positive rates, what is put out for a stream, and the state after it, do not depend on how the stream was split
  -- into blocks: they are those of all its samples at once.
  pub process_all-process :
      (blocks : List (List A)) (r : Resampler A)
      → IsValid r
      → process_all silence between blocks r ≡ process silence between (flat blocks) r
  unfolding process_all
  process_all-process [] r v = sym (process-nil r)
  process_all-process (b ∷ bs) r v =
      rw
        (
          process-append b (flat bs) r v,
          process_all-process bs (process silence between b r).1 (process-IsValid b r v),
        )
        refl

  -- What `resample` promises of its output and of the state after it.
  record IsTimed (input : List A) (r : Resampler A) (out : List A × Resampler A) : Type 0 where
    stop : length out.0 * r.from + r.position ≡ length input * r.to + out.1.position
    near : out.1.position < max (r.position + 1) r.from

  resample-IsTimed :
      (input : List A) (r : Resampler A)
      → IsValid r
      → IsTimed input r (resample silence between input r)
  unfolding resample
  resample-IsTimed input r v =
      let w =
        walk_stops silence between r.from r.to (length input * r.to) r.last input r.position v.reads
          (omega arith) in
      record { stop = omega (arith, w); near = omega (arith, w) }

  abbrev Lasts : ℕ → ℕ → ℕ → ℕ → Type 0
  Lasts from to n m = (n * from < m * to + from) × (m * to ≤ n * from + to)

  length-process :
      (input : List A) (from to : ℕ)
      → 0 < from
      → 0 < to
      → Lasts from to
          (length (process silence between input (create silence from to)).0)
          (length input)
  unfolding create
  length-process input from to h k =
      let r = create silence from to in
      elim (Bool-cases (eqb from to)) [
        | inl same ↦
            let e : from ≡ to = ground arith in
            rw (process_same input r e, e) (omega arith, omega arith)
        | inr differs ↦
            let e : from ≢ to = ground arith in
            let t = resample-IsTimed input r (create-IsValid silence from to h k) in
            rw (process_other input r e) (omega (arith, t.stop, t.near), omega (arith, t.stop))
      ]

  -- At positive rates, the output for a stream that begins lasts as long as its input. With n samples out at the rate
  -- `to` for m samples in at the rate `from`, n / to is less than 1 / to above m / from, and at most
  -- 1 / from below it.
  pub length-process_all :
      (blocks : List (List A)) (from to : ℕ)
      → 0 < from
      → 0 < to
      → let n = length (process_all silence between blocks (create silence from to)).0 in
        let m = length (flat blocks) in (n * from < m * to + from) × (m * to ≤ n * from + to)
  length-process_all blocks from to h k =
      rw (process_all-process blocks (create silence from to) (create-IsValid silence from to h k))
        (length-process (flat blocks) from to h k)
