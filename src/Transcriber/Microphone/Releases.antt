-- ===== src/Transcriber/Microphone/Releases.antt =====
-- The device and what comes with it are given back on every path.
use chanx_kit.Transcriber.Microphone.{
  Answers, Devices, Microphone, hear, nothing_held, on_message, on_messages, open_microphone,
  release, revoke, stop, worklet_runs,
}
use chanx_kit.Audio.Pcm.{Sample}
use chanx_kit.Prelude.{
  Bool, List, Option, [], ap, false, if_both, if◌then◌else◌, kept, none, not, refl, some, true, ℕ,
  ◌&&◌, ◌||◌, ◌∙◌, ◌∷◌, ◌≡◌,
}

revoke_lem :
    (tracks context owned : Bool)
    → revoke owned (record { tracks = tracks; context = context; object_url = owned })
      ≡ record { tracks = tracks; context = context; object_url = false }
revoke_lem tracks context true = refl
revoke_lem tracks context false = refl

devices-on_message :
    (block : List Sample) (m : Microphone) → (on_message block m).devices ≡ m.devices
unfolding on_message hear
devices-on_message block m =
    if_both (λ (r : Microphone). r.devices ≡ m.devices) m.listening refl refl

devices-on_messages :
    (blocks : List (List Sample)) (m : Microphone) → (on_messages blocks m).devices ≡ m.devices
unfolding on_messages
devices-on_messages [] m = refl
devices-on_messages (b ∷ bs) m = devices-on_messages bs (on_message b m) ∙ devices-on_message b m

-- The devices that a throw leaves open: the tracks where the context is refused, and the tracks and the
-- context where the graph is, after the worklet runs.
abbrev pub leak : (allowed created runs connected : Bool) → Devices
leak allowed created runs connected = record {
  tracks = allowed && (not created || (runs && not connected));
  context = allowed && created && runs && not connected;
  object_url = false;
}

abbrev pub leaked : Answers → Devices
leaked a = leak a.allowed a.created (a.loaded && (not a.suspended || a.resumed)) a.connected

-- What is held open while the microphone is in use, and what is left when it was stopped.
abbrev pub IsReleased : List (List Sample) → Devices → Option Microphone × Devices → Type 0
IsReleased blocks lost (none, held) = held ≡ lost
IsReleased blocks lost (some m, held) =
    (held ≡ record { tracks = true; context = true; object_url = false })
    × ((stop (on_messages blocks m)).devices ≡ nothing_held)

released_lem :
    (blocks : List (List Sample)) (allowed created runs connected : Bool) (m : Microphone)
    (kept back : Devices)
    → kept ≡ record { tracks = true; context = true; object_url = false }
    → back ≡ nothing_held
    → (stop (on_messages blocks m)).devices ≡ nothing_held
    → IsReleased blocks (leak allowed created runs connected) (
        if not allowed
        then (none, nothing_held)
        else if not created
        then (none, record { tracks = true; context = false; object_url = false })
        else if runs
        then (if connected then (some m, kept) else (none, kept))
        else (none, back))
released_lem blocks false created runs connected m kept back k b s = refl
released_lem blocks true false runs connected m kept back k b s = refl
released_lem blocks true true false connected m kept back k b s = b
released_lem blocks true true true false m kept back k b s = k
released_lem blocks true true true true m kept back k b s = (k, s)

-- Where the microphone opens, the tracks and the context are held and never the object URL, and `stop`
-- gives them back, after any blocks. Where it does not, nothing is left open if the microphone or the
-- worklet was refused; but the tracks stay open if the audio context was, and the tracks and the
-- context if the graph was.
pub open_microphone-IsReleased :
    (sample_rate chunk_ms : ℕ) (a : Answers) (blocks : List (List Sample))
    → IsReleased blocks (leaked a) (open_microphone sample_rate chunk_ms a)
unfolding open_microphone stop
open_microphone-IsReleased sample_rate chunk_ms a blocks =
    let kept = revoke_lem true true a.owned in
    released_lem blocks a.allowed a.created (worklet_runs a) a.connected _ _ _ kept
      (revoke_lem false false a.owned) (ap release (devices-on_messages blocks _ ∙ kept))
