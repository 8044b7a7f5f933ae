-- ===== src/Player/Sounds/Heard.antt =====
-- From the server's chunks to what is heard.
use Prim.Native.String.{String}
use chanx_kit.Audio.Base64.{Browser}
use chanx_kit.Audio.Pcm.{Sample}
use chanx_kit.Audio.Resampler.{create as create_resampler, Resampler, process, process_all}
use chanx_kit.Audio.Resampler.Blocks.{create-IsValid as create-IsResampling, process_all-process}
use chanx_kit.Audio.Resampler.Fractions.{between, silence}
use chanx_kit.Player.Contract.{SpeechAudioChunk, SpeechAudioStart}
use chanx_kit.Player.Handlers.{play_all}
use chanx_kit.Player.Handlers.Rejoin.{start_message, chunk_message, IsOf}
use chanx_kit.Player.Playback.{write, drain, clear, Message, Playback}
use chanx_kit.Player.Playback.Queue.{IsValid, pending}
use chanx_kit.Player.Playback.Stream.{
  block, message, Event, written, IsKept, heard_all, after_all, heard_all_lem,
}
use chanx_kit.Player.Sounds.{decode, sounds}
use chanx_kit.Player.Sounds.Utterance.{writes, IsRising, posted_utterance}
use chanx_kit.Player.Tracks.{Speaker, Player, id_of}
use mathlib.Core.Path.{ap₂}
use chanx_kit.Prelude.{
  some, none, false, All, List, Option, [], ap, append_inj, flat, has_key, kept, map, or_else, refl,
  sym, ℕ, ◌++◌, ◌<◌, ◌∙◌, ◌∷◌, ◌≡◌,
}

-- The messages among what reaches the worklet.
abbrev pub messages_of : List (Event silence) → List (Message Sample)
messages_of [] = []
messages_of (message m ∷ es) = m ∷ messages_of es
messages_of (block size ∷ es) = messages_of es

-- What the chunks of an utterance hold, as one stream.
abbrev pub stream : Browser String → ℕ → List SpeechAudioChunk → List Sample
stream b channels cs = flat (map (λ c. decode b c.data_value channels) cs)

written-writes :
    (b : Browser String) (channels : ℕ) (r : Resampler Sample) (cs : List SpeechAudioChunk)
    (es : List (Event silence))
    → messages_of es ≡ writes (sounds b) channels r cs
    → (written silence es
        ≡ (process_all silence between (map (λ c. decode b c.data_value channels) cs) r).0)
      × All (IsKept silence) es
unfolding process_all
written-writes b channels r [] [] h = (refl, tt)
written-writes b channels r (c ∷ cs) [] h = absurd cc
written-writes b channels r cs (block size ∷ es) h =
    let (same, kept) = written-writes b channels r cs es h in (same, (tt, kept))
written-writes b channels r [] (message m ∷ es) h = absurd cc
written-writes b channels r (c ∷ cs) (message drain ∷ es) h = absurd cc
written-writes b channels r (c ∷ cs) (message clear ∷ es) h = absurd cc
written-writes b channels r (c ∷ cs) (message (write xs) ∷ es) h =
    let out = process silence between (decode b c.data_value channels) r in
    let first : xs ≡ out.0 = cc in
    let more : messages_of es ≡ writes (sounds b) channels out.1 cs = cc in
    let (same, kept) = written-writes b channels out.1 cs es more in
    (ap₂ ◌++◌ first same, (tt, kept))

posted_of : (b : Browser String) → Option (Speaker (sounds b)) → List (Message Sample)
posted_of b none = []
posted_of b (some s) = s.posted

-- The speaker is open, at a positive rate as the utterance is, and the utterance u is new. Its start
-- and its chunks come, with rising numbers, and the worklet is sent what the player posts for them,
-- with requests for output in between. Then what is heard and what is still pending are what was
-- pending and the whole utterance, decoded, joined and resampled at once: where the server cuts the
-- audio and when output is asked for makes no difference.
pub heard-play_all :
    (b : Browser String) (now : ℕ) (payload : SpeechAudioStart) (cs : List SpeechAudioChunk)
    (s : Speaker (sounds b)) (p : Player (sounds b)) (es : List (Event silence))
    (q : Playback Sample)
    → p.speaker ≡ some s
    → has_key id_of payload.utterance_id p.tracks ≡ false
    → All (IsOf payload.utterance_id) cs
    → IsRising none cs
    → 0 < or_else payload.sample_rate 24000
    → 0 < s.sample_rate
    → (play_all now (start_message payload ∷ map chunk_message cs) p).speaker
      ≡ some (record s { posted = s.posted ++ messages_of es })
    → IsValid q
    → heard_all silence es q ++ pending (after_all silence es q)
      ≡ pending q
        ++ (process silence between
            (stream b (or_else payload.channels 1) cs)
            (create_resampler silence (or_else payload.sample_rate 24000) s.sample_rate)).0
unfolding posted_of
heard-play_all b now payload cs s p es q h k a i f t e v =
    let channels = or_else payload.channels 1 in
    let r = create_resampler silence (or_else payload.sample_rate 24000) s.sample_rate in
    let posted = sym (posted_utterance now payload cs s p h k a i) ∙ e in
    let ms : messages_of es ≡ writes (sounds b) channels r cs =
      sym
        (append_inj s.posted s.posted (writes (sounds b) channels r cs) (messages_of es) refl
          (ap (posted_of b) posted)).1 in
    let (same, kept) = written-writes b channels r cs es ms in
    let whole =
      process_all-process silence between (map (λ c. decode b c.data_value channels) cs) r
        (create-IsResampling silence (or_else payload.sample_rate 24000) s.sample_rate f t) in
    (heard_all_lem silence es q kept v).0
    ∙ ap (λ l. pending q ++ l) (same ∙ ap (λ (o : List Sample × Resampler Sample). o.0) whole)
