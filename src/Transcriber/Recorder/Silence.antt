-- ===== src/Transcriber/Recorder/Silence.antt =====
-- An idle recorder sends nothing.
use chanx_kit.Audio.Chunker.{Bytes}
use chanx_kit.Transcriber.Attempts.{idle, waiting, live, Recorder, Sender, is_idle, snapshot_of}
use chanx_kit.Transcriber.Contract.{TranscriberError}
use chanx_kit.Transcriber.Recorder.{failed, is_gap, on_chunk, on_error, opened, stop, stop_device}
use chanx_kit.Transcriber.Recorder.Microphones.{IsSound, Shape, is_live, is_waiting}
use mathlib.Core.Path.{subst}
use chanx_kit.Transcriber.Recorder.Releases.{Reachable-IsSound}
use chanx_kit.Transcriber.Recorder.Steps.{
  stepped, server_config, server_error, user_start, user_stop, microphone_opened, microphone_failed,
  microphone_level, chunk_held, chunk_captured, Reachable, Step,
}
use chanx_kit.Transcriber.Recorder.Given.{opened_lem}
use chanx_kit.Prelude.{
  some, none, true, false, Bool-cases, Option, String, ap, arith, eqb, eqb_iff, if_false, if_true,
  inl, inr, not, refl, sym, ℕ, ◌&&◌, ◌∙◌, ◌≡◌,
}

-- It has sent what it had, and is still idle.
record IsQuiet (r r' : Recorder) : Type 0 where
  sent : r'.sent ≡ r.sent
  status : (snapshot_of r').status ≡ idle

true-false : true ≡ false → ⊥
true-false e = cc

module _ (to_base64 : Bytes → String) where
  -- A step that is no start.
  abbrev pub IsOther : (r r' : Recorder) → Step to_base64 r r' → Type 0
  IsOther _ _ (user_start send r) = ⊥
  IsOther _ _ _ = Unit

  sent-on_chunk :
      (n : ℕ) (chunk : Bytes) (r : Recorder)
      → (r.attempts n).started ≡ false
      → ((on_chunk to_base64 n chunk r).sent ≡ r.sent)
        × ((snapshot_of (on_chunk to_base64 n chunk r)).status ≡ (snapshot_of r).status)
  unfolding on_chunk
  sent-on_chunk n chunk r h = rw h (refl, refl)

  sent-stop_device :
      (n : ℕ) (last : Option Bytes) (r : Recorder)
      → (r.attempts n).started ≡ false
      → ((stop_device to_base64 n last r).sent ≡ r.sent)
        × ((snapshot_of (stop_device to_base64 n last r)).status ≡ (snapshot_of r).status)
  sent-stop_device n none r h = (refl, refl)
  sent-stop_device n (some chunk) r h = sent-on_chunk n chunk r h

  -- While it is idle, the start that drew the last number is neither waiting nor live.
  idle_last : (r : Recorder) → IsSound r → (snapshot_of r).status ≡ idle → Shape idle r
  idle_last r s e = subst (λ q. Shape q r) e s.shape

  waiting_other :
      (n : ℕ) (r : Recorder)
      → Shape idle r
      → (r.attempts n).device ≡ waiting
      → eqb n r.generation ≡ false
  waiting_other n r h w = elim (Bool-cases (eqb n r.generation)) [
    | inl same ↦
        let e : n ≡ r.generation = (eqb_iff n r.generation).0 same in
        absurd (
          true-false (sym (ap is_waiting w) ∙ ap (λ k. is_waiting (r.attempts k).device) e ∙ h.1.1))
    | inr other ↦ other
  ]

  live_none : (n : ℕ) (r : Recorder) → IsSound r → Shape idle r → (r.attempts n).device ≡ live → ⊥
  live_none n r s h l = elim (Bool-cases (eqb n r.generation)) [
    | inl same ↦
        let e : n ≡ r.generation = (eqb_iff n r.generation).0 same in
        true-false (sym (ap is_live l) ∙ ap (λ k. is_live (r.attempts k).device) e ∙ h.1.0)
    | inr other ↦ true-false (sym (ap is_live l) ∙ s.others n other)
  ]

  error-IsQuiet :
      (error : TranscriberError) (last : Option Bytes) (r : Recorder)
      → (snapshot_of r).status ≡ idle
      → IsQuiet r (on_error to_base64 error last r)
  unfolding on_error
  error-IsQuiet error last r e =
      let i : is_idle (snapshot_of r).status ≡ true = ap is_idle e in
      let z : (not (is_gap error.code) && not (is_idle (snapshot_of r).status)) ≡ false =
        ground arith in
      subst (IsQuiet r) (sym (if_false _ _ _ z)) (record { sent = refl; status = e })

  opened-IsQuiet :
      (n : ℕ) (last : Option Bytes) (r : Recorder)
      → eqb n r.generation ≡ false
      → (r.attempts n).started ≡ false
      → (snapshot_of r).status ≡ idle
      → IsQuiet r (opened to_base64 n last r)
  opened-IsQuiet n last r z h e =
      let (sent, status) = sent-stop_device n last r h in
      subst (IsQuiet r) (sym (opened_lem to_base64 n last r ∙ if_false (eqb n r.generation) _ _ z))
        (record { sent = sent; status = status ∙ e })

  failed-IsQuiet :
      (n : ℕ) (message : String) (r : Recorder)
      → eqb n r.generation ≡ false
      → (snapshot_of r).status ≡ idle
      → IsQuiet r (failed n message r)
  unfolding failed
  failed-IsQuiet n message r z e =
      subst (IsQuiet r) (sym (if_false (eqb n r.generation) _ _ z))
        (record { sent = refl; status = e })

  stop-IsQuiet :
      (send : Sender) (last : Option Bytes) (r : Recorder)
      → (snapshot_of r).status ≡ idle
      → IsQuiet r (stop to_base64 send last r)
  unfolding stop
  stop-IsQuiet send last r e =
      subst (IsQuiet r) (sym (if_true (is_idle (snapshot_of r).status) r _ (ap is_idle e)))
        (record { sent = refl; status = e })

  Step-IsQuiet :
      (r r' : Recorder) (s : Step to_base64 r r')
      → IsOther r r' s
      → IsSound r
      → (snapshot_of r).status ≡ idle
      → IsQuiet r r'
  Step-IsQuiet _ _ (server_config config r) o s e = record { sent = refl; status = e }
  Step-IsQuiet _ _ (server_error error last r) o s e = error-IsQuiet error last r e
  Step-IsQuiet _ _ (user_start send r) o s e = absurd o
  Step-IsQuiet _ _ (user_stop send last r) o s e = stop-IsQuiet send last r e
  Step-IsQuiet _ _ (microphone_opened n last r w) o s e =
      opened-IsQuiet n last r (waiting_other n r (idle_last r s e) w) (s.held n w) e
  Step-IsQuiet _ _ (microphone_failed n message r w) o s e =
      failed-IsQuiet n message r (waiting_other n r (idle_last r s e) w) e
  Step-IsQuiet _ _ (microphone_level level r) o s e = record { sent = refl; status = e }
  Step-IsQuiet _ _ (chunk_held n chunk r w) o s e =
      let (sent, status) = sent-on_chunk n chunk r (s.held n w) in
      record { sent = sent; status = status ∙ e }
  Step-IsQuiet _ _ (chunk_captured n chunk r l) o s e = absurd (live_none n r s (idle_last r s e) l)

  -- The recorders that runs without another start lead to.
  pub data Later (r : Recorder) : Recorder → Type 0 where
    at_once : Later r r
    further :
        (r' r'' : Recorder)
        → Later r r'
        → (s : Step to_base64 r' r'') → IsOther r' r'' s
        → Later r r''

  pub Reachable-Later :
      (r r' : Recorder) → Reachable to_base64 r → Later r r' → Reachable to_base64 r'
  Reachable-Later r _ h at_once = h
  Reachable-Later r _ h (further r' r'' l s o) = stepped r' r'' (Reachable-Later r r' h l) s

  -- A recorder that is idle sends nothing and stays idle until it is started again, in every run:
  -- whatever the server says, whoever stops it once more, and whichever microphones of cancelled
  -- starts are still given, refused or emit what they have captured.
  pub sent-Later :
      (r r' : Recorder)
      → Reachable to_base64 r
      → (snapshot_of r).status ≡ idle
      → Later r r'
      → (r'.sent ≡ r.sent) × ((snapshot_of r').status ≡ idle)
  sent-Later r _ h e at_once = (refl, e)
  sent-Later r _ h e (further r' r'' l s o) =
      let (sent, status) = sent-Later r r' h e l in
      let q =
        Step-IsQuiet r' r'' s o (Reachable-IsSound to_base64 r' (Reachable-Later r r' h l))
          status in
      (q.sent ∙ sent, q.status)
