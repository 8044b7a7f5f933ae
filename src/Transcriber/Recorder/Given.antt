-- ===== src/Transcriber/Recorder/Given.antt =====
-- A start that is given its microphone, written as one change of its attempt.
use mathlib.Core.Path.{ap₂, fun_ext}
use chanx_kit.Audio.Chunker.{Bytes}
use chanx_kit.Transcriber.Attempts.{
  over, live, Attempt, Recorder, RecorderOptions, put, send_message, show, snapshot_of, recording,
}
use chanx_kit.Transcriber.Contract.{audio_chunk}
use chanx_kit.Transcriber.Recorder.{
  begin, given, on_chunk, opened, send_all, send_chunk, start_message, stop_device,
}
use chanx_kit.Prelude.{
  Bool, Bool-cases, Option, String, [], ap, eqb, eqb_iff, false, if◌then◌else◌, inl, inr, none,
  refl, some, suc, sym, true, ℕ, ◌++◌, ◌∙◌, ◌∷◌, ◌≡◌,
}

module _ (to_base64 : Bytes → String) where
  put-put : (n : ℕ) (a b : Attempt) (r : Recorder) → put n b (put n a r) ≡ put n b r
  put-put n a b r =
      ap (λ (f : ℕ → Attempt). record r { attempts = f })
        (fun_ext (λ k. elim (Bool-cases (eqb k n)) [ inl e ↦ rw e refl | inr e ↦ rw e refl ]))

  own_attempt : (n : ℕ) (a : Attempt) (r : Recorder) → (put n a r).attempts n ≡ a
  own_attempt n a r = rw ((eqb_iff n n).1 refl) refl

  -- The end of `start` on a recorder whose attempt has been changed.
  abbrev pub flushed : ℕ → RecorderOptions → Attempt → Recorder → Recorder
  flushed n options a r =
      let all =
        send_all to_base64 n a.held (send_message a.send (start_message to_base64 a options) r) in
      show (record (snapshot_of all) { status = recording })
        (record all { send_current = some a.send })

  -- `begin`, of a start whose attempt is `a` before its microphone is given
  abbrev pub begun : ℕ → Attempt → Recorder → Recorder
  begun n a r = flushed n r.options a (
      put n (record a { device = live; started = true; held = [] })
        (record r { microphone = some n }))

  begin-given :
      (n : ℕ) (r : Recorder) → begin to_base64 n (given to_base64 n r) ≡ begun n (r.attempts n) r
  unfolding begin
  begin-given n r =
      let a = record (r.attempts n) { device = live } in
      let r' = record r { microphone = some n } in
      ap
        (λ (b : Attempt).
          flushed n r.options b (put n (record b { started = true; held = [] }) (put n a r')))
        (own_attempt n a r)
      ∙ ap (flushed n r.options a) (put-put n a (record a { started = true; held = [] }) r')

  abbrev chunk_sent : Attempt → Bytes → Recorder → Recorder
  chunk_sent a chunk =
      send_message a.send (
        audio_chunk (record { payload = record { index = a.index; data_value = to_base64 chunk } }))

  -- `stop_device`, of a start whose attempt is `a`
  abbrev ended : ℕ → Option Bytes → Attempt → Recorder → Recorder
  ended n none a r = put n (record a { device = over }) r
  ended n (some chunk) a r =
      if a.started
      then chunk_sent a chunk (put n (record a { index = suc a.index; device = over }) r)
      else put n (record a { held = a.held ++ chunk ∷ []; device = over }) r

  over-put :
      (n : ℕ) (a : Attempt) (r : Recorder)
      → put n (record ((put n a r).attempts n) { device = over }) (put n a r)
        ≡ put n (record a { device = over }) r
  over-put n a r =
      ap (λ (b : Attempt). put n (record b { device = over }) (put n a r)) (own_attempt n a r)
      ∙ put-put n a (record a { device = over }) r

  if-over :
      (b : Bool) (n : ℕ) (x y : Recorder)
      → (let q = if b then x else y in put n (record (q.attempts n) { device = over }) q) ≡ (
          if b
          then put n (record (x.attempts n) { device = over }) x
          else put n (record (y.attempts n) { device = over }) y)
  if-over true n x y = refl
  if-over false n x y = refl

  stop_device_lem :
      (n : ℕ) (last : Option Bytes) (r : Recorder)
      → stop_device to_base64 n last r ≡ ended n last (r.attempts n) r
  unfolding on_chunk
  stop_device_lem n none r = refl
  stop_device_lem n (some chunk) r =
      let a = r.attempts n in
      if-over a.started n (send_chunk to_base64 n chunk r)
        (put n (record a { held = a.held ++ chunk ∷ [] }) r)
      ∙ ap₂ (λ (q s : Recorder). if a.started then q else s)
          (ap (chunk_sent a chunk) (over-put n (record a { index = suc a.index }) r))
          (over-put n (record a { held = a.held ++ chunk ∷ [] }) r)

  ended_again :
      (n : ℕ) (last : Option Bytes) (a b : Attempt) (r : Recorder)
      → ended n last a (put n b r) ≡ ended n last a r
  ended_again n none a b r = put-put n b (record a { device = over }) r
  ended_again n (some chunk) a b r =
      ap₂ (λ (q s : Recorder). if a.started then q else s)
        (ap (chunk_sent a chunk) (put-put n b (record a { index = suc a.index; device = over }) r))
        (put-put n b (record a { held = a.held ++ chunk ∷ []; device = over }) r)

  ended_live :
      (n : ℕ) (last : Option Bytes) (a : Attempt) (r : Recorder)
      → ended n last (record a { device = live }) r ≡ ended n last a r
  ended_live n none a r = refl
  ended_live n (some chunk) a r = refl

  stop_device-given :
      (n : ℕ) (last : Option Bytes) (r : Recorder)
      → stop_device to_base64 n last (given to_base64 n r) ≡ stop_device to_base64 n last r
  stop_device-given n last r =
      let a = record (r.attempts n) { device = live } in
      stop_device_lem n last (put n a r)
      ∙ ap (λ (b : Attempt). ended n last b (put n a r)) (own_attempt n a r)
      ∙ ended_again n last a a r
      ∙ ended_live n last (r.attempts n) r
      ∙ sym (stop_device_lem n last r)

  -- A start that is still the last takes its microphone into use; any other stops it at once.
  pub opened_lem :
      (n : ℕ) (last : Option Bytes) (r : Recorder)
      → opened to_base64 n last r
        ≡ (if eqb n r.generation then begun n (r.attempts n) r else stop_device to_base64 n last r)
  unfolding opened
  opened_lem n last r =
      ap₂ (λ (q s : Recorder). if eqb n r.generation then q else s) (begin-given n r)
        (stop_device-given n last r)
