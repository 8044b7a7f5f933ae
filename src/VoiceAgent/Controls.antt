-- ===== src/VoiceAgent/Controls.antt =====
-- What the controls of a voice agent send.
use chanx_kit.AgUi.Connect.{ToThread, ag_ui_cancel, cancel, send_cancel}
use chanx_kit.AgUi.Connect as Thread
use chanx_kit.AgUi.Requests.{cancel as cancel_thread}
use chanx_kit.AgUi.Thread as AgentThread
use chanx_kit.Audio.Chunker.{Bytes}
use chanx_kit.Controller.{Call, controller_send}
use chanx_kit.Player.Connect.{silence, stop}
use chanx_kit.Player.Connect.Closing.{heard_mark, relayed-drop_all}
use chanx_kit.Player.Connect.Timeline.{AreMarks, HasRate, heard_mark-AreMarks}
use chanx_kit.Player.Contract.{ContractToServer, speak_clear}
use chanx_kit.Player.Handlers.Leaks.{pending-drop_all, tracks-drop_all}
use chanx_kit.Player.Handlers.{silence as silence_player}
use chanx_kit.Player.Tracks.{PlayerOptions, Sound}
use chanx_kit.Transcriber.Attempts.{RecorderOptions}
use chanx_kit.VoiceAgent.{connect_voice_agent, interrupt, plays}
use chanx_kit.VoiceAgent.Runs.{Event, after_all, after_all-IsReady}
use chanx_kit.Prelude.{
  Bool, Bool-cases, List, Option, String, [], ap, append-nil, false, if◌then◌else◌, inl, inr,
  is_true, map, none, null, refl, some, sym, ℕ, ◌++◌, ◌∷◌, ◌≡◌,
}

-- The messages that end a run: one if there is a run.
abbrev pub cancels : Option String → List ToThread
cancels none = []
cancels (some id) =
    if is_true id then ag_ui_cancel (record { payload = record { run_id = id } }) ∷ [] else []

calls-cancel :
    (c : Thread.Connected)
    → (cancel c).calls
      ≡ c.calls ++ map controller_send (cancels (AgentThread.snapshot_of c.thread).run_id)
unfolding cancel cancel_thread
calls-cancel c = of_run (AgentThread.snapshot_of c.thread).run_id
  where
    of_run :
        (o : Option String)
        → (send_cancel
            (elim o [
              | none ↦ none
              | some id ↦
                  if is_true id then some (record { payload = record { run_id = id } }) else none
            ])
            c).calls
          ≡ c.calls ++ map controller_send (cancels o)
    of_run none = sym (append-nil c.calls)
    of_run (some id) = elim (Bool-cases (is_true id)) [
      | inl e ↦ rw e refl
      | inr e ↦ rw e (sym (append-nil c.calls))
    ]

abbrev pub speak_clear_call : Call ContractToServer
speak_clear_call = controller_send (speak_clear (record { payload = null }))

-- In any run that leads to a speaker with a positive rate, if any: an interruption sends the synthesizer
-- a mark for each utterance on the timeline, which says to the nearest millisecond how many of its samples
-- lie before the count that the speaker reported last, or 0 without a speaker, and then asks it to stop.
-- It cancels the run if there is one, takes all utterances off the timeline, and shows that nothing
-- plays; but the messages that wait for the speaker to open are left waiting.
pub interrupt_lem :
    (sound : Sound) (to_base64 : Bytes → String) (es : List Event) (barge_in : Option Bool)
    (param : Option String) (recorder : RecorderOptions) (player : PlayerOptions) (now : ℕ)
    → HasRate
        (after_all {sound = sound} to_base64 es
          (connect_voice_agent barge_in param recorder player)).voice.player.speaker
    → let v =
        after_all {sound = sound} to_base64 es
          (connect_voice_agent barge_in param recorder player) in
      ((marks : List ContractToServer) × AreMarks v.voice.player v.voice.player.tracks marks
        × ((interrupt now v).voice.calls
            ≡ v.voice.calls ++ map controller_send marks ++ speak_clear_call ∷ []))
      × ((interrupt now v).thread.calls
          ≡ v.thread.calls
            ++ map controller_send (cancels (AgentThread.snapshot_of v.thread.thread).run_id))
      × ((interrupt now v).voice.player.tracks ≡ [])
      × (plays (interrupt now v) ≡ false)
      × ((interrupt now v).voice.player.pending ≡ v.voice.player.pending)
unfolding interrupt silence silence_player stop
interrupt_lem sound to_base64 es barge_in param recorder player now h =
    let v =
      after_all {sound = sound} to_base64 es (connect_voice_agent barge_in param recorder player) in
    let ready = after_all-IsReady sound to_base64 es barge_in param recorder player in
    (
      (
        map (heard_mark v.voice.player) v.voice.player.tracks,
        heard_mark-AreMarks v.voice.player v.voice.player.tracks h,
        ap (λ (l : List (Call ContractToServer)). v.voice.calls ++ l ++ speak_clear_call ∷ [])
            (relayed-drop_all now v.voice.player ready.1),
      ),
      calls-cancel v.thread,
      tracks-drop_all now v.voice.player,
      refl,
      pending-drop_all now v.voice.player,
    )
