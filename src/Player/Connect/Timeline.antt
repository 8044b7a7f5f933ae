-- ===== src/Player/Connect/Timeline.antt =====
-- What a mark says of an utterance, told by the samples of its place on the timeline.
use native.Mathlib.Nat.{div-mul-le_self, lt-div-mul-add}
use chanx_kit.Player.Contract.{playback_mark, ContractToServer}
use chanx_kit.Player.Tracks.{Player, Sound, Speaker, Track, played_of, to_ms}
use chanx_kit.Player.Connect.Closing.{heard_mark}
use chanx_kit.Prelude.{
  List, Option, [], arith, if◌then◌else◌, ltb, map, min, none, refl, some, suc, zero, ℕ, ◌*◌, ◌+◌,
  ◌-◌, ◌/◌, ◌<◌, ◌∷◌, ◌≡◌, ◌≤◌,
}

-- How many of the `n` samples from `start` on come before `count`.
abbrev pub before : ℕ → ℕ → ℕ → ℕ
before count start zero = 0
before count start (suc n) =
    let rest = before count start n in if ltb (start + n) count then suc rest else rest

before-min : (count start n : ℕ) → before count start n ≡ min (count - start) n
before-min count start zero = omega arith
before-min count start (suc n) = let h = before-min count start n in ground arith

-- The nearest count of milliseconds, half a millisecond upwards.
abbrev pub IsNearest : (ms samples sample_rate : ℕ) → Type 0
IsNearest ms samples sample_rate =
    (ms * (2 * sample_rate) ≤ 2 * (1000 * samples) + sample_rate)
    × (2 * (1000 * samples) + sample_rate < ms * (2 * sample_rate) + 2 * sample_rate)

to_ms-IsNearest :
    (samples sample_rate : ℕ)
    → 0 < sample_rate
    → IsNearest (to_ms samples sample_rate) samples sample_rate
to_ms-IsNearest samples sample_rate h =
    let x = 2 * (samples * 1000) + sample_rate in
    let a = div-mul-le_self x (2 * sample_rate) in
    let b : x < x / (2 * sample_rate) * (2 * sample_rate) + 2 * sample_rate =
      lt-div-mul-add (omega arith) in
    (omega arith, omega arith)

module _ {sound : Sound} where
  -- The speaker that plays has a positive rate.
  abbrev pub HasRate : Option (Speaker sound) → Type 0
  HasRate none = Unit
  HasRate (some s) = 0 < s.sample_rate

  abbrev pub IsPlayed : Option (Speaker sound) → (ms samples : ℕ) → Type 0
  IsPlayed none ms samples = ms ≡ 0
  IsPlayed (some s) ms samples = IsNearest ms samples s.sample_rate

  -- The mark names the utterance, and says in milliseconds how many of its samples come before the
  -- count of samples that the speaker has reported.
  abbrev pub IsMark : Player sound → Track sound → ContractToServer → Type 0
  IsMark p t m =
      (ms : ℕ) × (m
        ≡ playback_mark (record { payload = record { utterance_id = t.id; played_ms = ms } }))
      × IsPlayed p.speaker ms (before p.played t.start t.length)

  -- A mark for each utterance, in order.
  abbrev pub AreMarks : Player sound → List (Track sound) → List ContractToServer → Type 0
  AreMarks p [] [] = Unit
  AreMarks p (t ∷ ts) (m ∷ ms) = IsMark p t m × AreMarks p ts ms
  AreMarks p ts ms = ⊥

  played_of-IsPlayed :
      (p : Player sound) (t : Track sound)
      → HasRate p.speaker
      → IsPlayed p.speaker (played_of p t) (before p.played t.start t.length)
  played_of-IsPlayed p t h = go p.speaker h
    where
      go :
          (o : Option (Speaker sound))
          → HasRate o
          → IsPlayed o
              (elim o [
                | none ↦ 0
                | some s ↦ to_ms (min (p.played - t.start) t.length) s.sample_rate
              ])
              (before p.played t.start t.length)
      go none h = refl
      go (some s) h =
          rw (before-min p.played t.start t.length)
            (to_ms-IsNearest (min (p.played - t.start) t.length) s.sample_rate h)

  pub heard_mark-AreMarks :
      (p : Player sound) (ts : List (Track sound))
      → HasRate p.speaker
      → AreMarks p ts (map (heard_mark p) ts)
  heard_mark-AreMarks p [] h = tt
  heard_mark-AreMarks p (t ∷ ts) h =
      ((played_of p t, refl, played_of-IsPlayed p t h), heard_mark-AreMarks p ts h)
