-- ===== src/Player/Connect.antt =====
-- `connectPlayer` of ui/player/core.ts: a player with the topic controller of its topic. What the speaker and
-- the server bring comes as calls of `played` and `receive`.
pub mod Senders
pub mod Closing
pub mod Timeline
pub mod Runs
mod Tests
use chanx_kit.Controller.{Call, controller_start, controller_stop, controller_send, own, relayed}
use chanx_kit.Player.Contract.{ContractToClient, ContractToServer}
use chanx_kit.Player.Tracks.{Player, PlayerOptions, Sound, attach, create_player, on_played}
use chanx_kit.Player.Handlers.{on, unlocked}
use chanx_kit.Player.Handlers.{
  opened as speaker_opened, close as close_player, silence as silence_player,
}
use chanx_kit.Player.Handlers.{ensure_speaker, unlocked}
use chanx_kit.Prelude.{
  Bool, Field, List, Option, String, [], absent, none, null, some, ℕ, ◌++◌, ◌∷◌,
}

pub record Connected (sound : Sound) : Type 0 where
  pub player : Player sound
  pub calls : List (Call ContractToServer)

-- `voice ?? null`
abbrev pub voice_of : Option String → Field String
voice_of none = null
voice_of (some name) = Field.value name

module _ {sound : Sound} where
  abbrev pub connect_player : PlayerOptions → Connected sound
  connect_player options = record { player = attach own (create_player options); calls = [] }

  -- The player goes on to `p`, and what it sends on the way goes to the controller.
  abbrev pub relay : Player sound → Connected sound → Connected sound
  relay p c = record { player = p; calls = c.calls ++ relayed c.player.sent p.sent }

  abbrev pub send : ContractToServer → Connected sound → Connected sound
  send message c = record c { calls = c.calls ++ controller_send message ∷ [] }

  -- A message of the topic.
  unfoldable pub receive : ℕ → ContractToClient → Connected sound → Connected sound
  receive now message c = relay (on now message c.player) c

  -- The speaker has opened, and its counts of samples.
  unfoldable pub opened : ℕ → ℕ → Bool → Connected sound → Connected sound
  opened now sample_rate suspended c = relay (speaker_opened now sample_rate suspended c.player) c

  unfoldable pub played : ℕ → ℕ → Connected sound → Connected sound
  played now total c = relay (on_played now total c.player) c

  -- `player.silence()`
  unfoldable pub silence : ℕ → Connected sound → Connected sound
  silence now c = relay (silence_player now c.player) c

  unfoldable pub speak : String → Option String → Connected sound → Connected sound
  speak content voice c =
      send
        (ContractToServer.speak (record {
          payload = record { text = content; voice = voice_of voice; utterance_id = absent };
        }))
        c

  unfoldable pub stop : Connected sound → Connected sound
  stop c = send (ContractToServer.speak_clear (record { payload = null })) c

  -- `unlock`: the speaker is asked for, and once it is there and, if it was suspended, resumed.
  abbrev pub unlock : Connected sound → Connected sound
  unlock c = record c { player = ensure_speaker c.player }

  abbrev pub unlocking : Bool → Connected sound → Connected sound
  unlocking suspended c = record c { player = unlocked suspended c.player }

  abbrev pub start : Connected sound → Connected sound
  start c = record c { calls = c.calls ++ controller_start ∷ [] }

  unfoldable pub close : ℕ → Connected sound → Connected sound
  close now c =
      let c' = relay (close_player now c.player) c in
      record c' { calls = c'.calls ++ controller_stop ∷ [] }
