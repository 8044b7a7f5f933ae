-- ===== src/Player/Connect/Runs.antt =====
-- All that can happen to a connected player, in any order, and what its server is told at the end.
use chanx_kit.Controller.{Call, controller_stop, controller_send}
use chanx_kit.Player.Contract.{ContractToClient, ContractToServer}
use chanx_kit.Player.Tracks.{PlayerOptions, Sound}
use chanx_kit.Player.Handlers.{close as close_player}
use chanx_kit.Player.Handlers.Runs.{received, heard, speaker_opened, silenced, closed}
use chanx_kit.Player.Handlers.{open_failed}
use chanx_kit.Player.Connect.{
  Connected, close, connect_player, opened, played, receive, relay, silence, speak, start, stop,
}
use chanx_kit.Player.Connect.Closing.{heard_mark, relayed-drop_all}
use chanx_kit.Player.Connect.Timeline.{AreMarks, HasRate, heard_mark-AreMarks}
use chanx_kit.Player.Connect.Senders.{IsOwn, after-IsOwn}
use chanx_kit.Prelude.{Bool, List, Option, String, [], ap, map, refl, ℕ, ◌++◌, ◌∷◌, ◌≡◌}

-- Each with the time at which it happens, where the program reads the clock.
pub data Act : Type 0 where
  joined stopped : Act
  told : ℕ → ContractToClient → Act
  sounded : ℕ → ℕ → Act
  speaker_given : ℕ → ℕ → Bool → Act
  speaker_refused : String → Act
  asked : String → Option String → Act
  hushed : ℕ → Act
  ended : ℕ → Act

module _ {sound : Sound} where
  unfoldable pub step : Act → Connected sound → Connected sound
  unfolding close opened played receive silence speak stop
  step joined c = start c
  step stopped c = stop c
  step (told now m) c = receive now m c
  step (sounded now total) c = played now total c
  step (speaker_given now sample_rate suspended) c = opened now sample_rate suspended c
  step (speaker_refused message) c = relay (open_failed message c.player) c
  step (asked content voice) c = speak content voice c
  step (hushed now) c = silence now c
  step (ended now) c = close now c

  unfoldable pub steps : List Act → Connected sound → Connected sound
  unfolding step
  steps [] c = c
  steps (act ∷ acts) c = steps acts (step act c)

  pub step-IsOwn : (act : Act) (c : Connected sound) → IsOwn c.player → IsOwn (step act c).player
  unfolding step close opened played receive silence speak stop
  step-IsOwn joined c h = h
  step-IsOwn stopped c h = h
  step-IsOwn (told now m) c h = after-IsOwn (received now m) c.player h
  step-IsOwn (sounded now total) c h = after-IsOwn (heard now total) c.player h
  step-IsOwn (speaker_given now sample_rate suspended) c h =
      after-IsOwn (speaker_opened now sample_rate suspended) c.player h
  step-IsOwn (speaker_refused message) c h = h
  step-IsOwn (asked content voice) c h = h
  step-IsOwn (hushed now) c h = after-IsOwn (silenced now) c.player h
  step-IsOwn (ended now) c h = after-IsOwn (closed now) c.player h

  pub steps-IsOwn :
      (acts : List Act) (c : Connected sound) → IsOwn c.player → IsOwn (steps acts c).player
  unfolding steps
  steps-IsOwn [] c h = h
  steps-IsOwn (act ∷ acts) c h = steps-IsOwn acts (step act c) (step-IsOwn act c h)

-- In any run that leads to a speaker with a positive rate, if any: closing a connected player first sends
-- a mark for each utterance that has begun and is not over, in the order of the timeline, and then leaves
-- the topic. The mark says, to the nearest millisecond, how many of the utterance's samples lie before the
-- count of samples that the speaker reported last; or 0 without a speaker.
pub heard_mark-close :
    (sound : Sound) (now : ℕ) (acts : List Act) (options : PlayerOptions)
    → HasRate (steps {sound = sound} acts (connect_player options)).player.speaker
    → let c = steps {sound = sound} acts (connect_player options) in
      (marks : List ContractToServer) × AreMarks c.player c.player.tracks marks
      × ((close now c).calls ≡ c.calls ++ map controller_send marks ++ controller_stop ∷ [])
unfolding close close_player
heard_mark-close sound now acts options h =
    let c = steps {sound = sound} acts (connect_player options) in
    (
      map (heard_mark c.player) c.player.tracks,
      heard_mark-AreMarks c.player c.player.tracks h,
      ap (λ (l : List (Call ContractToServer)). c.calls ++ l ++ controller_stop ∷ [])
          (relayed-drop_all now c.player (steps-IsOwn acts (connect_player options) refl)),
    )
