-- ===== src/Player/Handlers.antt =====
-- The handlers and methods of `createPlayer` of ui/player/core.ts. A handler waits in `pending` until
-- the speaker is open.
pub mod Pending
pub mod Timeline
pub mod Placement
pub mod Runs
pub mod Replay
pub mod Rejoin
pub mod Leaks
pub mod Marks
mod Tests
use chanx_kit.Player.Contract.{
  provider_failed, audio_chunk, audio_end, audio_start, clear, synthesizer_error, ContractToClient,
  SpeechAudioChunk, SpeechAudioEnd, SpeechAudioStart,
}
use chanx_kit.Player.Playback.{Message, write, drain}
use chanx_kit.Player.Tracks.{
  idle, playing, Player, Sound, Speaker, Track, id_of, mark, post, show, snapshot_of, track_of,
}
use chanx_kit.Prelude.{
  absent, some, none, true, false, Bool, List, Option, String, [], eqb, flat, has_key,
  if◌then◌else◌, leb, length, map, opt_eq, or_else, without, ℕ, ◌++◌, ◌+◌, ◌==◌, ◌∷◌,
}

abbrev pub is_played : ℕ → Option ℕ → Bool
is_played index none = false
is_played index (some last) = leb index last

module _ {sound : Sound} where
  -- `dropAll`
  unfoldable pub drop_all : ℕ → Player sound → Player sound
  unfolding mark
  drop_all now p =
      let marked = flat (map (λ track. (mark now true p track).1) p.tracks) in
      let cleared = post Message.clear (record p { tracks = []; sent = p.sent ++ marked }) in
      record cleared { written = p.played }

  abbrev pub new_track : SpeechAudioStart → Speaker sound → Player sound → Track sound
  new_track payload s p = record {
    id = payload.utterance_id;
    text = payload.text;
    resampler = some (sound.create_resampler (or_else payload.sample_rate 24000) s.sample_rate);
    channels = or_else payload.channels 1;
    last_index = none;
    start = p.written;
    length = 0;
    ended = false;
    duration_ms = none;
    last_mark_ms = none;
    last_mark_at = 0;
  }

  -- `audio_start`, once the speaker `s` is there
  abbrev pub start_track : SpeechAudioStart → Speaker sound → Player sound → Player sound
  start_track payload s p =
      if has_key id_of payload.utterance_id p.tracks
      then p
      else show
          (record (snapshot_of p) {
            status = playing;
            utterance_id = some payload.utterance_id;
            text = payload.text;
            played_ms = 0;
            duration_ms = none;
            error = none;
          })
          (record p { tracks = p.tracks ++ new_track payload s p ∷ [] })

  -- A track is an object that the handlers change in place.
  abbrev pub change_track :
      String → (Track sound → Track sound) → List (Track sound) → List (Track sound)
  change_track id change [] = []
  change_track id change (track ∷ tracks) =
      if track.id == id then change track ∷ tracks else track ∷ change_track id change tracks

  abbrev pub grown : ℕ → ℕ → sound.Resampler → Track sound → Track sound
  grown index samples r track = record track {
    last_index = some index;
    resampler = some r;
    length = track.length + samples;
  }

  abbrev pub play_samples :
      SpeechAudioChunk
      → Track sound
      → List (sound.Sample) × sound.Resampler
      → Player sound
      → Player sound
  play_samples payload track out p = post (write out.0) (record p {
    tracks = change_track payload.utterance_id (grown payload.index (length out.0) out.1) p.tracks;
    written = p.written + length out.0;
  })

  abbrev pub play_with :
      SpeechAudioChunk → Track sound → Option (sound.Resampler) → Player sound → Player sound
  play_with payload track none p = p
  play_with payload track (some r) p =
      if is_played payload.index track.last_index
      then p
      else play_samples payload track
          (sound.resample r (sound.decode payload.data_value track.channels)) p

  -- `audio_chunk`
  abbrev pub play_chunk : SpeechAudioChunk → Option (Track sound) → Player sound → Player sound
  play_chunk payload none p = p
  play_chunk payload (some track) p = play_with payload track track.resampler p

  abbrev pub show_duration : SpeechAudioEnd → Player sound → Player sound
  show_duration payload p =
      if opt_eq (snapshot_of p).utterance_id (some payload.utterance_id)
      then show (record (snapshot_of p) { duration_ms = some payload.duration_ms }) p
      else p

  abbrev pub show_idle : Player sound → Player sound
  show_idle p = show (record (snapshot_of p) { status = idle }) p

  abbrev pub show_if_idle : List (Track sound) → Player sound → Player sound
  show_if_idle [] p = show_idle p
  show_if_idle (track ∷ tracks) p = p

  -- An utterance without samples is over as soon as it ends.
  abbrev pub drop_empty : ℕ → Track sound → Player sound → Player sound
  drop_empty now track p =
      let left = without id_of track.id p.tracks in
      show_if_idle left (record p { tracks = left; sent = p.sent ++ (mark now true p track).1 })

  abbrev pub finished : SpeechAudioEnd → Track sound → Track sound
  finished payload t = record t { ended = true; duration_ms = some payload.duration_ms }

  -- `audio_end`
  abbrev pub end_track : ℕ → SpeechAudioEnd → Option (Track sound) → Player sound → Player sound
  end_track now payload none p = p
  end_track now payload (some track) p =
      let finish = finished payload in
      let changed = record p { tracks = change_track payload.utterance_id finish p.tracks } in
      let drained = post drain (show_duration payload changed) in
      if eqb track.length 0 then drop_empty now (finish track) drained else drained

  -- What a handler does once the speaker `s` is there.
  unfoldable pub play : ℕ → Speaker sound → ContractToClient → Player sound → Player sound
  unfolding mark drop_all
  play now s (audio_start m) p = start_track m.payload s p
  play now s (audio_chunk m) p = play_chunk m.payload (track_of m.payload.utterance_id p.tracks) p
  play now s (audio_end m) p = end_track now m.payload (track_of m.payload.utterance_id p.tracks) p
  play now s (clear m) p = show_idle (drop_all now p)
  play now s (synthesizer_error m) p = show (record (snapshot_of p) { error = some m.payload }) p

  -- `ensureSpeaker` without the promise: whether the speaker has been asked for.
  abbrev pub ensure_speaker_of : Option (Speaker sound) → Player sound → Player sound
  ensure_speaker_of none p = record p { opening = true }
  ensure_speaker_of (some s) p = p

  abbrev pub ensure_speaker : Player sound → Player sound
  ensure_speaker p = ensure_speaker_of p.speaker p

  -- `withSpeaker`
  abbrev pub with_speaker :
      ℕ → ContractToClient → Option (Speaker sound) → Player sound → Player sound
  with_speaker now message none p =
      ensure_speaker (record p { pending = p.pending ++ message ∷ [] })
  with_speaker now message (some s) p = play now s message p

  unfoldable pub on : ℕ → ContractToClient → Player sound → Player sound
  unfolding play
  on now (synthesizer_error m) p = show (record (snapshot_of p) { error = some m.payload }) p
  on now message p = with_speaker now message p.speaker p

  unfoldable pub play_all : ℕ → List ContractToClient → Player sound → Player sound
  unfolding on
  play_all now [] p = p
  play_all now (message ∷ messages) p = play_all now messages (on now message p)

  -- The speaker has opened: what arrived is played.
  unfoldable pub opened : ℕ → ℕ → Bool → Player sound → Player sound
  unfolding play_all
  opened now sample_rate suspended p =
      let s : Speaker sound = record { sample_rate = sample_rate; posted = [] } in
      play_all now p.pending (
        show (record (snapshot_of p) { needs_unlock = suspended })
          (record p { speaker = some s; pending = [] }))

  -- The speaker could not be opened; `message` is what the program makes of the error.
  abbrev pub open_failed : String → Player sound → Player sound
  open_failed message p =
      show
        (record (snapshot_of p) {
          error =
              some (record { code = provider_failed; message = message; utterance_id = absent });
        })
        (record p { opening = false; pending = [] })

  unfoldable pub silence : ℕ → Player sound → Player sound
  unfolding drop_all
  silence now p = show_idle (drop_all now p)

  -- The end of `unlock`, when the speaker is open and, if it was suspended, resumed.
  abbrev pub unlocked : Bool → Player sound → Player sound
  unlocked suspended p = show (record (snapshot_of p) { needs_unlock = suspended }) p

  unfoldable pub close : ℕ → Player sound → Player sound
  unfolding drop_all
  close now p = record (drop_all now p) { speaker = none; opening = false; pending = [] }
