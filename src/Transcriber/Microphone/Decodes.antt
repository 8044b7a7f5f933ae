-- ===== src/Transcriber/Microphone/Decodes.antt =====
-- What a recording emits, encoded for the wire and decoded again, as the transcriber kit encodes and
-- the player kit decodes.
use chanx_kit.Audio.Base64.{Browser, from_base64, to_base64}
use chanx_kit.Audio.Base64.RoundTrip.{IsBase64, from_base64-to_base64}
use chanx_kit.Audio.Chunker.{create as create_chunker, Bytes, IsByte}
use chanx_kit.Audio.Chunker.Cut.{AreFull}
use chanx_kit.Audio.Pcm.{Sample, from_pcm16, to_pcm16}
use chanx_kit.Audio.Pcm.Decoded.{decoded, decoded-append, from_pcm16-decoded, decoded-to_pcm16}
use chanx_kit.Audio.Pcm.Words.{word_lt, quantised}
use chanx_kit.Transcriber.Microphone.Emits.{IsRecording, emitted-stop}
use chanx_kit.Transcriber.Microphone.{Devices, new_microphone, on_messages, stop}
use chanx_kit.Audio.Resampler.Fractions.{between, silence}
use chanx_kit.Audio.Resampler.{process}
use chanx_kit.Prelude.{
  All, List, [], ap, append-nil, append_assoc, arith, flat, flat-append, length, map, max, or_else,
  refl, sym, ℕ, ◌*◌, ◌++◌, ◌+◌, ◌/◌, ◌<◌, ◌∙◌, ◌∷◌, ◌≡◌, ◌≤◌,
}

to_pcm16-IsByte : (samples : List Sample) → All IsByte (to_pcm16 samples)
unfolding to_pcm16
to_pcm16-IsByte [] = tt
to_pcm16-IsByte (s ∷ ss) = let w = word_lt s in (omega arith, (omega arith, to_pcm16-IsByte ss))

All-append_parts :
    {A : Type 0} (P : A → Type 0) (xs ys : List A) → All P (xs ++ ys) → All P xs × All P ys
All-append_parts P [] ys h = (tt, h)
All-append_parts P (x ∷ xs) ys h = let (a, b) = All-append_parts P xs ys h.1 in ((h.0, a), b)

All-flat : {A : Type 0} (P : A → Type 0) (xs : List (List A)) → All P (flat xs) → All (All P) xs
All-flat P [] h = tt
All-flat P (x ∷ xs) h = let (a, b) = All-append_parts P x (flat xs) h in (a, All-flat P xs b)

-- The chunks of a recording as the program of another tab hears them.
abbrev pub heard_from : {Text : Type 0} → Browser Text → Bytes → List Sample
heard_from b chunk = or_else (from_pcm16 (from_base64 b (to_base64 b chunk)) 1) []

heard_from_lem :
    {Text : Type 0} (b : Browser Text)
    → IsBase64 b
    → (chunks : List Bytes) → All (All IsByte) chunks
    → map (heard_from b) chunks ≡ map decoded chunks
heard_from_lem b v [] h = refl
heard_from_lem b v (c ∷ cs) h =
    rw (from_base64-to_base64 b c v h.0, from_pcm16-decoded c, heard_from_lem b v cs h.1) refl

decoded-flat :
    (half : ℕ) (chunks rest : List Bytes)
    → AreFull (half * 2) chunks
    → decoded (flat chunks ++ flat rest) ≡ flat (map decoded chunks) ++ decoded (flat rest)
decoded-flat half [] rest h = refl
decoded-flat half (c ∷ cs) rest h =
    ap decoded (append_assoc c (flat cs) (flat rest))
    ∙ decoded-append half c (flat cs ++ flat rest) h.0
    ∙ ap (λ l. decoded c ++ l) (decoded-flat half cs rest h.1)
    ∙ sym (append_assoc (decoded c) (flat (map decoded cs)) (decoded (flat rest)))

decoded_one : (rest : List Bytes) → length rest ≤ 1 → decoded (flat rest) ≡ flat (map decoded rest)
decoded_one [] h = refl
decoded_one (c ∷ []) h = ap decoded (append-nil c) ∙ sym (append-nil (decoded c))
decoded_one (c ∷ d ∷ rest) h = absurd (omega arith)

map-append {ℓ κ} :
    {A : Type ℓ} {B : Type κ} (f : A → B) (xs ys : List A) → map f (xs ++ ys) ≡ map f xs ++ map f ys
map-append f [] ys = refl
map-append f (x ∷ xs) ys = ap (◌∷◌ (f x)) (map-append f xs ys)

size-create :
    (sample_rate chunk_ms : ℕ)
    → (half : ℕ) × ((create_chunker sample_rate chunk_ms 1).size ≡ half * 2)
unfolding create_chunker
size-create sample_rate chunk_ms =
    (max 1 ((2 * (sample_rate * chunk_ms) + 1000) / 2000), omega arith)

decoded_recording :
    (half size : ℕ) (samples : List Sample) (emitted : List Bytes)
    → size ≡ half * 2
    → IsRecording size samples emitted
    → flat (map decoded emitted) ≡ map quantised samples
decoded_recording half size samples emitted e r =
    let full = rw e at r.full in
    let whole =
      (ap (λ l. flat (map decoded l)) r.parts
        ∙ rw (map-append, flat-append, ← decoded_one r.rest r.one)
            (sym (decoded-flat half r.chunks r.rest full))) in
    whole
    ∙ ap decoded (sym (flat-append r.chunks r.rest) ∙ sym (ap flat r.parts) ∙ r.same)
    ∙ decoded-to_pcm16 samples

-- At positive rates, a recording that is encoded as base64, chunk by chunk, and decoded, by a browser
-- whose encoders and decoders agree on bytes, is heard as what the resampler makes of the blocks that
-- the worklet posted, each sample as its 16 bits hold it: no chunk splits a sample.
pub heard_from-stop :
    {Text : Type 0} (b : Browser Text)
    → IsBase64 b
    → (blocks : List (List Sample)) (context_rate sample_rate chunk_ms : ℕ) (devices : Devices)
    → 0 < context_rate
    → 0 < sample_rate
    → let m = new_microphone context_rate sample_rate chunk_ms devices in
      flat (map (heard_from b) (stop (on_messages blocks m)).emitted)
      ≡ map quantised (process silence between (flat blocks) m.resampler).0
heard_from-stop b v blocks context_rate sample_rate chunk_ms devices h k =
    let m = new_microphone context_rate sample_rate chunk_ms devices in
    let emitted = (stop (on_messages blocks m)).emitted in
    let samples = (process silence between (flat blocks) m.resampler).0 in
    let r = emitted-stop blocks context_rate sample_rate chunk_ms devices h k in
    let (half, e) = size-create sample_rate chunk_ms in
    let bytes = All-flat IsByte emitted (rw r.same (to_pcm16-IsByte samples)) in
    ap flat (heard_from_lem b v emitted bytes) ∙ decoded_recording half _ samples emitted e r
