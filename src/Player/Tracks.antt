-- ===== src/Player/Tracks.antt =====
-- `createPlayer` of ui/player/core.ts: utterances on the timeline of the speaker. What the player
-- does with samples is a parameter, `Sound`: it decodes a chunk and resamples it, on floats. The
-- speaker is what has been posted to it, with its rate; its counts of samples come as calls of
-- `on_played`, and `now` is the clock. -1 stands for no index and no mark, here `none`.
use chanx_kit.Player.Contract.{playback_mark, ContractToClient, ContractToServer, SynthesizerError}
use chanx_kit.Player.Playback.{Message}
use chanx_kit.Store.{Store, create, publish}
use chanx_kit.Prelude.{
  some, none, false, Bool, List, Option, String, [], eqb, find?, if◌then◌else◌, is_true, leb, ltb,
  min, not, ℕ, ◌&&◌, ◌*◌, ◌++◌, ◌+◌, ◌-◌, ◌/◌, ◌==◌, ◌||◌, ◌∷◌,
}

-- Decoding a chunk with its number of channels, a resampler between two rates, and one step of it.
pub record Sound : Type 1 where
  pub Sample : Type 0
  pub Resampler : Type 0
  pub decode : String → ℕ → List Sample
  pub create_resampler : ℕ → ℕ → Resampler
  pub resample : Resampler → List Sample → List Sample × Resampler

pub data PlayerStatus : Type 0 where
  idle playing : PlayerStatus

pub record PlayerSnapshot : Type 0 where
  pub status : PlayerStatus
  pub utterance_id : Option String
  pub text : String
  pub played_ms : ℕ
  pub duration_ms : Option ℕ
  pub error : Option SynthesizerError
  pub needs_unlock : Bool

pub record PlayerOptions : Type 0 where
  pub prebuffer_ms : ℕ
  pub mark_every_ms : ℕ

-- The identity of a `send` function.
abbrev pub Sender : Type 0
Sender = ℕ

module _ (sound : Sound) where
  pub record Track : Type 0 where
    pub id : String
    pub text : String
    pub resampler : Option (sound.Resampler)
    pub channels : ℕ
    pub last_index : Option ℕ
    pub start : ℕ
    pub length : ℕ
    pub ended : Bool
    pub duration_ms : Option ℕ
    pub last_mark_ms : Option ℕ
    pub last_mark_at : ℕ

  pub record Speaker : Type 0 where
    pub sample_rate : ℕ
    pub posted : List (Message (sound.Sample))

  -- `pending` holds messages: a closure of the program is the handler's, on its payload.
  pub record Player : Type 0 where
    pub options : PlayerOptions
    pub store : Store PlayerSnapshot
    pub speaker : Option Speaker
    pub opening : Bool
    pub send : Option Sender
    pub written : ℕ
    pub played : ℕ
    pub tracks : List Track
    pub pending : List ContractToClient
    pub sent : List (Sender × ContractToServer)

-- `Math.round((heard / sampleRate) * 1000)`, half a millisecond upwards
abbrev pub to_ms : ℕ → ℕ → ℕ
to_ms heard sample_rate = (2 * (heard * 1000) + sample_rate) / (2 * sample_rate)

abbrev pub is_last_mark : ℕ → Option ℕ → Bool
is_last_mark played_ms none = false
is_last_mark played_ms (some last) = eqb played_ms last

abbrev pub mark_messages : Option Sender → String → ℕ → List (Sender × ContractToServer)
mark_messages none id played_ms = []
mark_messages (some send) id played_ms =
    (send, playback_mark (record { payload = record { utterance_id = id; played_ms = played_ms } }))
    ∷ []

module _ {sound : Sound} where
  abbrev pub create_player : PlayerOptions → Player sound
  create_player options = record {
    options = options;
    store = create (record {
      status = idle;
      utterance_id = none;
      text = "";
      played_ms = 0;
      duration_ms = none;
      error = none;
      needs_unlock = false;
    });
    speaker = none;
    opening = false;
    send = none;
    written = 0;
    played = 0;
    tracks = [];
    pending = [];
    sent = [];
  }

  abbrev pub snapshot_of : Player sound → PlayerSnapshot
  snapshot_of p = p.store.snapshot

  abbrev pub show : PlayerSnapshot → Player sound → Player sound
  show next p = record p { store = publish next p.store }

  abbrev pub attach : Sender → Player sound → Player sound
  attach next p = record p { send = some next }

  abbrev pub id_of : Track sound → String
  id_of track = track.id

  -- `playedOf`; a difference below 0 counts as 0.
  abbrev pub played_of : Player sound → Track sound → ℕ
  played_of p track = elim p.speaker [
    | none ↦ 0
    | some s ↦ to_ms (min (p.played - track.start) track.length) s.sample_rate
  ]

  -- Whether `mark` returns at once.
  abbrev pub is_early : ℕ → Player sound → Track sound → Bool
  is_early now p track =
      is_last_mark (played_of p track) track.last_mark_ms
      || ltb (now - track.last_mark_at) (p.options).mark_every_ms

  -- `mark`: the track after it, and what is sent.
  unfoldable pub mark :
      ℕ → Bool → Player sound → Track sound → Track sound × List (Sender × ContractToServer)
  mark now force p track = if not force && is_early now p track then (track, []) else (
    record track { last_mark_ms = some (played_of p track); last_mark_at = now },
    mark_messages p.send track.id (played_of p track),
  )

  abbrev pub is_done : Player sound → Track sound → Bool
  is_done p track = track.ended && leb (track.start + track.length) p.played

  -- The loop of `onPlayed`: the tracks that stay, and what is sent.
  unfoldable pub sweep :
      ℕ → Player sound → List (Track sound) → List (Track sound) × List (Sender × ContractToServer)
  unfolding mark
  sweep now p [] = ([], [])
  sweep now p (track ∷ tracks) =
      let marked = mark now (is_done p track) p track in
      let others = sweep now p tracks in
      (if is_done p track then others.0 else marked.0 ∷ others.0, marked.1 ++ others.1)

  abbrev pub track_of : String → List (Track sound) → Option (Track sound)
  track_of id = find? (λ track. track.id == id)

  -- `snapshot.utteranceId ? tracks.get(snapshot.utteranceId) : undefined`
  abbrev pub current_of : Player sound → Option (Track sound)
  current_of p = elim (snapshot_of p).utterance_id [
    | none ↦ none
    | some id ↦ if is_true id then track_of id p.tracks else none
  ]

  abbrev pub status_of : List (Track sound) → PlayerStatus
  status_of [] = idle
  status_of (track ∷ tracks) = playing

  abbrev pub show_played : Option (Track sound) → Player sound → Player sound
  show_played none p = p
  show_played (some track) p =
      show (record (snapshot_of p) { played_ms = played_of p track; status = status_of p.tracks }) p

  unfoldable pub on_played : ℕ → ℕ → Player sound → Player sound
  unfolding sweep
  on_played now total p =
      let p' = record p { played = total } in
      let swept = sweep now p' p.tracks in
      show_played (current_of p) (record p' { tracks = swept.0; sent = p.sent ++ swept.1 })

  -- `speaker!.write(samples)` and its like
  abbrev pub post_to : Option (Speaker sound) → Message (sound.Sample) → Player sound → Player sound
  post_to none message p = p
  post_to (some s) message p = record p {
    speaker = some (record s { posted = s.posted ++ message ∷ [] });
  }

  abbrev pub post : Message (sound.Sample) → Player sound → Player sound
  post message p = post_to p.speaker message p
