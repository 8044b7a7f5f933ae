-- ===== src/Player/Speaker.antt =====
-- `openSpeaker` of ui/player/speaker.ts: the audio output, whose samples the worklet plays. What the
-- browser answers is an argument. A listener of `onPlayed` is its identity, and `told` lists the calls.
pub mod Prebuffer
mod Tests
use chanx_kit.Player.Playback.{create as create_playback, Playback, on_message, process}
use chanx_kit.Player.Playback.{Message}
use chanx_kit.Prelude.{
  some, none, true, false, Bool, List, Option, [], any, eqb, if◌then◌else◌, kept, map, ℕ, ◌*◌, ◌++◌,
  ◌+◌, ◌/◌, ◌∷◌, not, ◌&&◌,
}

-- What is held open: the audio context, the object URL of the worklet, and the connected node.
pub record Devices : Type 0 where
  pub context : Bool
  pub object_url : Bool
  pub node : Bool

-- What the browser answers. `owned` is whether no `workletUrl` is given, and `connected` whether
-- `new AudioWorkletNode` and its connection succeed.
pub record Answers : Type 0 where
  pub owned : Bool
  pub loaded : Bool
  pub connected : Bool
  pub suspended : Bool
  pub context_rate : ℕ

pub record OpenSpeaker (A : Type 0) : Type 0 where
  pub sample_rate : ℕ
  pub worklet : Playback A
  pub listeners : List ℕ
  pub told : List (ℕ × ℕ)
  pub suspended : Bool
  pub devices : Devices

-- `Math.round((context.sampleRate * prebufferMs) / 1000)`, half a sample upwards
abbrev pub prebuffer_samples : ℕ → ℕ → ℕ
prebuffer_samples context_rate prebuffer_ms = (2 * (context_rate * prebuffer_ms) + 1000) / 2000

-- The `finally` block
abbrev pub revoke : Bool → Devices → Devices
revoke owned d = if owned then record d { object_url = false } else d

module _ {A : Type 0} where
  -- The speaker, or none where the function throws, and what is held open then.
  unfoldable pub open_speaker : ℕ → Answers → Option (OpenSpeaker A) × Devices
  open_speaker prebuffer_ms a =
      let held : Devices = record { context = true; object_url = a.owned; node = false } in
      let kept = record (revoke a.owned held) { node = true } in
      if not a.loaded
      then (none, revoke a.owned (record held { context = false }))
      else if a.connected
      then (
        some (record {
          sample_rate = a.context_rate;
          worklet = create_playback (prebuffer_samples a.context_rate prebuffer_ms);
          listeners = [];
          told = [];
          suspended = a.suspended;
          devices = kept;
        }),
        kept,
      )
      else (none, revoke a.owned held)

  -- `write`, `drain` and `clear` post a message to the worklet.
  unfoldable pub post : Message A → OpenSpeaker A → OpenSpeaker A
  post m s = record s { worklet = on_message m s.worklet }

  -- Adding a function to a set that has it changes nothing.
  unfoldable pub on_played : ℕ → OpenSpeaker A → OpenSpeaker A
  on_played listener s =
      if any (eqb listener) s.listeners
      then s
      else record s { listeners = s.listeners ++ listener ∷ [] }

  -- `node.port.onmessage`
  abbrev pub tell : Option ℕ → OpenSpeaker A → OpenSpeaker A
  tell none s = s
  tell (some total) s = record s {
    told = s.told ++ map (λ listener. (listener, total)) s.listeners;
  }

  -- The worklet is asked for a block of output, and what it posts is passed on.
  unfoldable pub output : A → ℕ → OpenSpeaker A → OpenSpeaker A
  output silence size s =
      let out = process silence size s.worklet in tell out.posted (record s { worklet = out.next })

  -- `resume`; the argument is whether the browser lets the audio go on.
  abbrev pub resume : Bool → OpenSpeaker A → OpenSpeaker A
  resume allowed s = record s { suspended = s.suspended && not allowed }

  unfoldable pub close : OpenSpeaker A → OpenSpeaker A
  close s = record s { devices = record s.devices { context = false; node = false } }
