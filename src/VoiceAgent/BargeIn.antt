-- ===== src/VoiceAgent/BargeIn.antt =====
-- When the user begins to speak, the reply falls silent.
use chanx_kit.Player.Tracks.{Sound}
use chanx_kit.Player.Connect.{Connected, silence}
use chanx_kit.Player.Tracks as Tracks
use chanx_kit.Player.Handlers.{silence as silence_player}
use chanx_kit.Transcriber.Utterances.{
  TranscriptMessage, on, update, speech_started, transcript_partial, transcript_final,
  utterance_end,
}
use chanx_kit.Transcriber.Contract.{SpeechStartedMessage}
use chanx_kit.VoiceAgent.{
  VoiceStatus, listen, hear, plays, VoiceAgent, is_playing, speaks, status, voice_status,
}
use chanx_kit.Prelude.{
  true, false, inl, inr, Bool, Bool-cases, ap, arith, if_false, if◌then◌else◌, not, refl, ℕ, ◌&&◌,
  ◌∙◌, ◌≡◌, ◌≢◌,
}

-- Whether a message is the beginning of speech.
abbrev pub is_speech : TranscriptMessage → Bool
is_speech (speech_started m) = true
is_speech _ = false

voice_status-quiet : (a b : Bool) → voice_status a b false ≢ VoiceStatus.speaking
voice_status-quiet true true e = ground arith
voice_status-quiet true false e = ground arith
voice_status-quiet false true e = ground arith
voice_status-quiet false false e = ground arith

module _ {sound : Sound} where
  -- The agent knows whether the user was speaking at the last message.
  abbrev pub IsListening : VoiceAgent sound → Type 0
  IsListening v = v.was_speaking ≡ speaks v

  -- `utterance_end` publishes twice: the second call of the function changes nothing.
  pub listen_twice :
      (now later : ℕ) (v : VoiceAgent sound) → listen later (listen now v) ≡ listen now v
  unfolding listen
  listen_twice now later v =
      let w = listen now v in
      let off : (v.barge_in && speaks v && not (speaks v) && plays w) ≡ false = ground arith in
      ap (λ (q : Connected sound). record v { was_speaking = speaks v; voice = q })
        (if_false _ _ _ off)

  -- Only the beginning of speech silences the reply, and only if barge-in is on and the reply plays: if
  -- the user was not speaking before, as the function remembers. A reply that begins while the user
  -- still speaks is left alone, and so is one that plays while partials and finals come.
  pub voice-hear :
      (now : ℕ) (m : TranscriptMessage) (v : VoiceAgent sound)
      → IsListening v
      → (hear now m v).voice ≡ (
          if v.barge_in && is_speech m && not (speaks v) && plays v
          then silence now v.voice
          else v.voice)
  unfolding hear on update
  voice-hear now (speech_started m) v h = ground arith
  voice-hear now (transcript_partial m) v h = ground arith
  voice-hear now (transcript_final m) v h = ground arith
  voice-hear now (utterance_end m) v h = ground arith

  plays-silence :
      (now : ℕ) (c : Connected sound)
      → is_playing (Tracks.snapshot_of (silence now c).player).status ≡ false
  unfolding silence silence_player
  plays-silence now c = refl

  plays-hear :
      (now : ℕ) (m : SpeechStartedMessage) (v : VoiceAgent sound)
      → IsListening v
      → v.barge_in ≡ true
      → speaks v ≡ false
      → plays (hear now (speech_started m) v) ≡ false
  plays-hear now m v h b s =
      let e = voice-hear now (speech_started m) v h in
      ap (λ (c : Connected sound). is_playing (Tracks.snapshot_of c.player).status) e
      ∙ elim (Bool-cases (plays v)) [
        | inl k ↦ rw (b, s, k) (plays-silence now v.voice)
        | inr k ↦ rw (b, s, k) k
      ]

  -- With barge-in on, the agent is not shown as speaking once the user has begun to speak, whether it
  -- was before or not.
  pub status-hear :
      (now : ℕ) (m : SpeechStartedMessage) (v : VoiceAgent sound)
      → IsListening v
      → v.barge_in ≡ true
      → speaks v ≡ false
      → status (hear now (speech_started m) v) ≢ VoiceStatus.speaking
  unfolding status
  status-hear now m v h b s =
      let w = hear now (speech_started m) v in
      rw (plays-hear now m v h b s) (voice_status-quiet _ _)
