-- ===== src/Transcriber/Recorder/Microphones.antt =====
-- Which microphone is open, and that starts keep it so: the call itself, and its microphone given or
-- refused.
use chanx_kit.Audio.Chunker.{Bytes}
use chanx_kit.Transcriber.Recorder.{failed, start, on_last, opened, start_message, stop_device}
use chanx_kit.Transcriber.Attempts.{
  idle, starting, recording, waiting, live, over, unasked, Device, Recorder, RecorderSnapshot,
  RecorderStatus, put, show, snapshot_of, Attempt, Sender, is_idle, send_message,
}
use chanx_kit.Transcriber.Recorder.Frame.{Frame, on_last-Frame, send_all-Frame}
use mathlib.Core.Path.{subst}
use chanx_kit.Transcriber.Recorder.Given.{begun, opened_lem}
use chanx_kit.Prelude.{
  some, none, true, false, Bool, ap, arith, eqb, refl, sym, ℕ, ◌<◌, ◌∙◌, ◌≡◌, eqb_iff, ◌≤◌,
  Bool-cases, String, inl, inr, Option, [],
}

abbrev pub is_live : Device → Bool
is_live live = true
is_live _ = false

abbrev pub is_waiting : Device → Bool
is_waiting waiting = true
is_waiting _ = false

-- How the status goes with the microphone and with the start that drew the last number.
abbrev pub Shape : RecorderStatus → Recorder → Type 0
Shape idle r =
    (r.microphone ≡ none)
    × ((is_live (r.attempts r.generation).device ≡ false)
        × (is_waiting (r.attempts r.generation).device ≡ false))
Shape starting r = (r.microphone ≡ none) × ((r.attempts r.generation).device ≡ waiting)
Shape recording r =
    (r.microphone ≡ some r.generation)
    × (((r.attempts r.generation).device ≡ live)
        × (((r.attempts r.generation).started ≡ true)
            × (r.send_current ≡ some (r.attempts r.generation).send)))

pub record IsSound (r : Recorder) : Type 0 where
  pub shape : Shape (snapshot_of r).status r
  pub others : (n : ℕ) → eqb n r.generation ≡ false → is_live (r.attempts n).device ≡ false
  pub future : (n : ℕ) → r.generation < n → (r.attempts n).device ≡ unasked
  pub held : (n : ℕ) → (r.attempts n).device ≡ waiting → (r.attempts n).started ≡ false

Shape-Frame : (s : RecorderStatus) (r r' : Recorder) → Frame r r' → Shape s r → Shape s r'
Shape-Frame idle r r' f h =
    let d = f.device r.generation in
    rw (f.generation) (f.microphone ∙ h.0, (ap is_live d ∙ h.1.0, ap is_waiting d ∙ h.1.1))
Shape-Frame starting r r' f h = rw (f.generation) (f.microphone ∙ h.0, f.device r.generation ∙ h.1)
Shape-Frame recording r r' f h = rw (f.generation) (
  f.microphone ∙ h.0,
  (
    f.device r.generation ∙ h.1.0,
    (f.started r.generation ∙ h.1.1.0, f.current ∙ h.1.1.1 ∙ ap some (sym (f.send r.generation))),
  ),
)

pub Frame-IsSound : (r r' : Recorder) → Frame r r' → IsSound r → IsSound r'
Frame-IsSound r r' f h = record {
  shape =
      subst (λ s. Shape s r') (sym f.status) (Shape-Frame (snapshot_of r).status r r' f h.shape);
  others = λ n e. ap is_live (f.device n) ∙ h.others n (rw (sym (f.generation)) e);
  future = λ n l. f.device n ∙ h.future n (rw (sym (f.generation)) l);
  held = λ n e. f.started n ∙ h.held n (sym (f.device n) ∙ e);
}

-- Showing something new without a change of status.
pub show-Frame :
    (next : RecorderSnapshot) (r : Recorder)
    → next.status ≡ (snapshot_of r).status
    → Frame r (show next r)
show-Frame next r e = record {
  generation = refl;
  microphone = refl;
  status = e;
  current = refl;
  device = λ n. refl;
  started = λ n. refl;
  send = λ n. refl;
}

-- What one start's attempt is changed to does not concern the others.
pub put_other :
    (n k : ℕ) (a : Attempt) (r : Recorder) → eqb k n ≡ false → (put n a r).attempts k ≡ r.attempts k
put_other n k a r e = rw e refl

pub put_same : (n : ℕ) (a : Attempt) (r : Recorder) → (put n a r).attempts n ≡ a
put_same n a r = rw ((eqb_iff n n).1 refl) refl

Shape-put :
    (s : RecorderStatus) (n : ℕ) (a : Attempt) (r : Recorder)
    → n < r.generation
    → Shape s r
    → Shape s (put n a r)
Shape-put idle n a r l h = rw (put_other n r.generation a r (ground arith)) h
Shape-put starting n a r l h = rw (put_other n r.generation a r (ground arith)) h
Shape-put recording n a r l h = rw (put_other n r.generation a r (ground arith)) h

-- A start that is not the last one is over.
over-IsSound :
    (n : ℕ) (a : Attempt) (r : Recorder)
    → n < r.generation
    → a.device ≡ over
    → IsSound r
    → IsSound (put n a r)
over-IsSound n a r l e h = record {
  shape = Shape-put (snapshot_of r).status n a r l h.shape;
  others = λ k d. let o = h.others k d in ground arith;
  future = λ k m. let o = h.future k m in ground (arith, eqb_iff k n);
  held = λ k d. let o = h.held k in ground (arith, eqb_iff k n);
}

pub waiting-le :
    (n : ℕ) (r : Recorder) → (r.attempts n).device ≡ waiting → IsSound r → n ≤ r.generation
waiting-le n r e h = let o = h.future n in ground arith

pub start-IsSound : (send : Sender) (r : Recorder) → IsSound r → IsSound (start send r)
unfolding start
start-IsSound send r h = elim (Bool-cases (is_idle (snapshot_of r).status)) [
  | inl e ↦ rw e (record {
    shape = let k = h.shape in ground arith;
    others = λ n d. let o = h.others n in let k = h.shape in ground (arith, eqb_iff n r.generation);
    future = λ n l. let o = h.future n in ground arith;
    held = λ n d. let o = h.held n in ground arith;
  })
  | inr e ↦ rw e h
]

Shape-waiting :
    (s : RecorderStatus) (r : Recorder)
    → (r.attempts r.generation).device ≡ waiting
    → Shape s r
    → (s ≡ starting) × (r.microphone ≡ none)
Shape-waiting idle r w h = let k = h.1.1 in ground arith
Shape-waiting starting r w h = (refl, h.0)
Shape-waiting recording r w h = let k = h.1.0 in ground arith

pub failed-IsSound :
    (n : ℕ) (message : String) (r : Recorder)
    → (r.attempts n).device ≡ waiting
    → IsSound r
    → IsSound (failed n message r)
unfolding failed
failed-IsSound n message r w h = elim (Bool-cases (eqb n r.generation)) [
  | inl e ↦ rw e (record {
    shape =
        let g = (eqb_iff n r.generation).0 e in
        let k = Shape-waiting _ r (rw (sym g) w) h.shape in
        let z = eqb_iff r.generation n in (k.1, (ground arith, ground arith));
    others = λ k d. let o = h.others k d in ground arith;
    future = λ k l. let o = h.future k l in ground arith;
    held = λ k d. let o = h.held k in ground arith;
  })
  | inr e ↦ let l = waiting-le n r w h in rw e (over-IsSound n _ r (ground arith) refl h)
]

module _ (to_base64 : Bytes → String) where
  stop_device-IsSound :
      (n : ℕ) (last : Option Bytes) (r : Recorder)
      → n < r.generation
      → IsSound r
      → IsSound (stop_device to_base64 n last r)
  stop_device-IsSound n last r l h =
      let f = on_last-Frame to_base64 n last r in
      over-IsSound n _ (on_last to_base64 n last r) (rw (f.generation) l) refl
        (Frame-IsSound r _ f h)

  begin-IsSound :
      (r : Recorder)
      → (r.attempts r.generation).device ≡ waiting
      → IsSound r
      → IsSound (begun to_base64 r.generation (r.attempts r.generation) r)
  begin-IsSound r w h =
      let n = r.generation in
      let a = r.attempts n in
      let told = send_message a.send (start_message to_base64 a r.options) (
        put n (record a { device = live; started = true; held = [] })
          (record r { microphone = some n })) in
      let f = send_all-Frame to_base64 n a.held told in
      let p =
        put_same n (record a { device = live; started = true; held = [] })
          (record r { microphone = some n }) in
      record {
        shape =
            rw (f.generation, f.device n, f.started n, f.send n, f.microphone, p)
              (refl, (refl, (refl, refl)));
        others = λ k d. let o = h.others k in ground (arith, f.device k, f.generation);
        future = λ k l. let o = h.future k in ground (arith, f.device k, f.generation);
        held = λ k d. let o = h.held k in ground (arith, f.device k, f.started k);
      }

  pub opened-IsSound :
      (n : ℕ) (last : Option Bytes) (r : Recorder)
      → (r.attempts n).device ≡ waiting
      → IsSound r
      → IsSound (opened to_base64 n last r)
  opened-IsSound n last r w h =
      subst IsSound (sym (opened_lem to_base64 n last r)) (elim (Bool-cases (eqb n r.generation)) [
        | inl e ↦
            let g = (eqb_iff n r.generation).0 e in rw (e, g) (begin-IsSound r (rw (sym g) w) h)
        | inr e ↦ let l = waiting-le n r w h in rw e (stop_device-IsSound n last r (ground arith) h)
      ])
