-- ===== src/Player/Speaker/Prebuffer.antt =====
-- Nothing is heard before a prebuffer of audio has been written.
use chanx_kit.Player.Playback.{
  create as create_playback, Message, Playback, on_message, process, still_waiting, Filling, filled,
  filling,
}
use chanx_kit.Player.Playback.Stream.{block, message, Event, heard, heard_all, written}
use chanx_kit.Player.Speaker.{Answers, Devices, OpenSpeaker, open_speaker, prebuffer_samples}
use chanx_kit.Player.Playback.Draining.{and_false}
use mathlib.Core.Path.{subst}
use chanx_kit.Prelude.{
  All, Bool, List, Option, [], ap, arith, false, if_true, if◌then◌else◌, length, length-append,
  none, not, refl, some, sym, true, ℕ, ◌+◌, ◌<◌, ◌||◌, ◌∷◌, ◌≡◌,
}

-- Neither drained nor cleared.
abbrev pub IsWrite : {A : Type 0} {silence : A} → Event silence → Type 0
IsWrite (message (Message.write samples)) = Unit
IsWrite (message Message.drain) = ⊥
IsWrite (message Message.clear) = ⊥
IsWrite (block size) = Unit

or_true : (b c : Bool) → b ≡ true → (b || c) ≡ true
or_true b c h = ground arith

module _ {A : Type 0} (silence : A) where
  -- The worklet waits for its prebuffer, of which `more` samples are not queued yet.
  record Waits (p : Playback A) (more : ℕ) : Type 0 where
    waiting : p.waiting ≡ true
    draining : p.draining ≡ false
    short : p.queued + more < p.prebuffer

  still_waiting_lem : (p : Playback A) (more : ℕ) → Waits p more → still_waiting p ≡ true
  still_waiting_lem p more w =
      let e = w.waiting in let d = w.draining in let l = w.short in ground arith

  filled_waiting : (size : ℕ) (p : Playback A) → still_waiting p ≡ true → filled size p ≡ filling p
  filled_waiting size p e = if_true (still_waiting p) (filling p) _ e

  block-Waits :
      (size more : ℕ) (p : Playback A)
      → Waits p more
      → (heard silence size p ≡ []) × Waits (process silence size p).next more
  unfolding process
  block-Waits size more p w =
      let e = still_waiting_lem p more w in
      let f = filled_waiting size p e in
      let d = w.draining in
      (
        ap (λ (s : Filling A). s.samples) f,
        record {
          waiting = or_true (still_waiting p) _ e;
          draining = and_false p.draining _ d;
          short =
              subst (λ n. n + more < p.prebuffer) (sym (ap (λ (s : Filling A). s.queued) f))
                w.short;
        },
      )

  heard_all-Waits :
      (es : List (Event silence)) (p : Playback A)
      → All IsWrite es
      → Waits p (length (written silence es))
      → heard_all silence es p ≡ []
  unfolding heard_all on_message
  heard_all-Waits [] p a w = refl
  heard_all-Waits (message (Message.write samples) ∷ es) p a w =
      heard_all-Waits es (on_message (Message.write samples) p) a.1 (record {
        waiting = w.waiting;
        draining = w.draining;
        short = omega (arith, w.short, length-append samples (written silence es));
      })
  heard_all-Waits (message Message.drain ∷ es) p a w = absurd a.0
  heard_all-Waits (message Message.clear ∷ es) p a w = absurd a.0
  heard_all-Waits (block size ∷ es) p a w =
      let (quiet, next) = block-Waits size (length (written silence es)) p w in
      rw (quiet, heard_all-Waits es (process silence size p).next a.1 next) refl

  abbrev worklet_of : Option (OpenSpeaker A) → Playback A
  worklet_of none = create_playback 0
  worklet_of (some s) = s.worklet

  none-some : (s : OpenSpeaker A) → none ≡ some s → ⊥
  none-some s e = cc

  worklet-opens :
      (loaded connected : Bool) (x s : OpenSpeaker A) (held held' given left : Devices)
      → ◌≡◌ {A = Option (OpenSpeaker A) × Devices}
          (if not loaded
            then (none, given)
            else if connected
            then (some x, held')
            else (none, left))
          (some s, held)
      → s.worklet ≡ x.worklet
  worklet-opens true true x s held held' given left e =
      ap (λ (o : Option (OpenSpeaker A) × Devices). worklet_of o.0) (sym e)
  worklet-opens true false x s held held' given left e =
      absurd (none-some s (ap (λ (o : Option (OpenSpeaker A) × Devices). o.0) e))
  worklet-opens false connected x s held held' given left e =
      absurd (none-some s (ap (λ (o : Option (OpenSpeaker A) × Devices). o.0) e))

  worklet-open_speaker :
      (prebuffer_ms : ℕ) (a : Answers) (s : OpenSpeaker A) (held : Devices)
      → open_speaker prebuffer_ms a ≡ (some s, held)
      → s.worklet ≡ create_playback (prebuffer_samples a.context_rate prebuffer_ms)
  unfolding open_speaker
  worklet-open_speaker prebuffer_ms a s held e = worklet-opens a.loaded a.connected _ s held _ _ _ e

  -- A speaker that has just been opened stays silent, however often it is asked for output, until a
  -- prebuffer of audio has been written, rounded to whole samples at the rate of the device; unless
  -- it is drained.
  pub heard_all-open_speaker :
      (prebuffer_ms : ℕ) (a : Answers) (s : OpenSpeaker A) (held : Devices)
      (es : List (Event silence))
      → open_speaker prebuffer_ms a ≡ (some s, held)
      → All IsWrite es
      → length (written silence es) < prebuffer_samples a.context_rate prebuffer_ms
      → heard_all silence es s.worklet ≡ []
  heard_all-open_speaker prebuffer_ms a s held es e w l =
      rw (worklet-open_speaker prebuffer_ms a s held e)
        (heard_all-Waits es _ w (record { waiting = refl; draining = refl; short = omega arith }))
