-- ===== src/Transcriber/Microphone/Emits.antt =====
-- What a recording emits, as one stream of bytes.
use chanx_kit.Audio.Chunker.{create as create_chunker, Bytes, push, flush}
use chanx_kit.Audio.Chunker.Cut.{AreFull}
use chanx_kit.Audio.Chunker.Streams.{
  IsValid as IsChunking, create-IsValid as create-IsChunking, push_lem, size-push,
}
use chanx_kit.Audio.Pcm.{Sample, bytes_of, to_pcm16, word}
use chanx_kit.Audio.Resampler.{process, process_all}
use chanx_kit.Audio.Resampler.Blocks.{create-IsValid as create-IsResampling, process_all-process}
use chanx_kit.Audio.Resampler.Fractions.{between, silence}
use chanx_kit.Transcriber.Microphone.{
  Microphone, hear, on_message, on_messages, rest_of, Devices, new_microphone, stop,
}
use chanx_kit.Prelude.{
  some, none, true, List, [], ap, append-nil, flat, refl, sym, ◌++◌, ◌∷◌, ◌≡◌, All, All-append,
  append_assoc, flat-append, if_true, length, ◌<◌, ◌∙◌, All-mono, arith, if◌then◌else◌, ltb, suc, ℕ,
  ◌≤◌,
}

to_pcm16-append : (xs ys : List Sample) → to_pcm16 (xs ++ ys) ≡ to_pcm16 xs ++ to_pcm16 ys
unfolding to_pcm16
to_pcm16-append [] ys = refl
to_pcm16-append (x ∷ xs) ys = ap (λ l. bytes_of (word x) ++ l) (to_pcm16-append xs ys)

-- What was emitted since `m`, up to `n`, for the samples.
record IsEmitting (m n : Microphone) (samples : List Sample) (chunks : List Bytes) : Type 0 where
  emitted : n.emitted ≡ m.emitted ++ chunks
  full : AreFull (m.chunker).size chunks
  same : flat chunks ++ (n.chunker).buffered ≡ (m.chunker).buffered ++ to_pcm16 samples
  valid : IsChunking n.chunker
  size : (n.chunker).size ≡ (m.chunker).size

hear_lem :
    (block : List Sample) (m : Microphone)
    → IsChunking m.chunker
    → let samples = (process silence between block m.resampler).0 in
      IsEmitting m (hear block m) samples (push (to_pcm16 samples) m.chunker).0
unfolding hear
hear_lem block m v =
    let bytes = to_pcm16 (process silence between block m.resampler).0 in
    let (full, same, valid) = push_lem bytes m.chunker v in
    record {
      emitted = refl;
      full = full;
      same = same;
      valid = valid;
      size = size-push bytes m.chunker;
    }

IsEmitting-trans :
    (m n o : Microphone) (xs ys : List Sample) (cs ds : List Bytes)
    → IsEmitting m n xs cs
    → IsEmitting n o ys ds
    → IsEmitting m o (xs ++ ys) (cs ++ ds)
IsEmitting-trans m n o xs ys cs ds p q = record {
  emitted = q.emitted ∙ rw p.emitted (append_assoc m.emitted cs ds);
  full = All-append (λ c. length c ≡ (m.chunker).size) cs ds p.full (rw p.size at q.full);
  same = rw flat-append (
      append_assoc (flat cs) (flat ds) (o.chunker).buffered
      ∙ rw q.same (
          sym (append_assoc (flat cs) (n.chunker).buffered (to_pcm16 ys))
          ∙ rw (p.same, to_pcm16-append)
              (append_assoc (m.chunker).buffered (to_pcm16 xs) (to_pcm16 ys))));
  valid = q.valid;
  size = q.size ∙ p.size;
}

on_message_lem :
    (block : List Sample) (m : Microphone) → m.listening ≡ true → on_message block m ≡ hear block m
unfolding on_message
on_message_lem block m l = if_true m.listening (hear block m) m l

on_messages_lem :
    (blocks : List (List Sample)) (m : Microphone)
    → m.listening ≡ true
    → IsChunking m.chunker
    → (chunks : List Bytes) × IsEmitting m
        (on_messages blocks m)
        (process_all silence between blocks m.resampler).0
        chunks
unfolding on_messages process_all to_pcm16 hear
on_messages_lem [] m l v = (
  [],
  record {
    emitted = sym (append-nil m.emitted);
    full = tt;
    same = sym (append-nil (m.chunker).buffered);
    valid = v;
    size = refl;
  },
)
on_messages_lem (b ∷ bs) m l v =
    let n = hear b m in
    let e = on_message_lem b m l in
    let p = hear_lem b m v in
    let (cs, q) = on_messages_lem bs n l p.valid in
    let out = process silence between b m.resampler in
    let first = (push (to_pcm16 out.0) m.chunker).0 in
    let more = process_all silence between bs out.1 in
    (first ++ cs, rw e (IsEmitting-trans m n (on_messages bs n) out.0 more.0 first cs p q))

-- The rest that `flush` hands out, if it is not empty.
IsRest : Bytes → Bytes → Type 0
IsRest buffered rest = (0 < length rest) × (rest ≡ buffered)

rest_lem :
    (buffered : Bytes)
    → let rest = rest_of (if ltb 0 (length buffered) then some buffered else none) in
      (flat rest ≡ buffered) × All (IsRest buffered) rest × (length rest ≤ 1)
unfolding IsRest
rest_lem [] = (refl, tt, omega arith)
rest_lem (b ∷ bs) =
    let e : ltb 0 (suc (length bs)) ≡ true = ground arith in
    rw e (append-nil (b ∷ bs), ((omega arith, refl), tt), omega arith)

-- What a recording emits: full chunks, then a last one that is shorter and not empty, or none; and
-- together the bytes of what the resampler makes of the whole stream.
pub record IsRecording (size : ℕ) (samples : List Sample) (emitted : List Bytes) : Type 0 where
  pub chunks : List Bytes
  pub rest : List Bytes
  pub one : length rest ≤ 1
  pub parts : emitted ≡ chunks ++ rest
  pub full : AreFull size chunks
  pub short : All (λ c. (0 < length c) × (length c < size)) rest
  pub same : flat emitted ≡ to_pcm16 samples

buffered-create : (sample_rate chunk_ms : ℕ) → (create_chunker sample_rate chunk_ms 1).buffered ≡ []
unfolding create_chunker
buffered-create sample_rate chunk_ms = refl

-- At positive rates, however the worklet splits what it captures into blocks, a recording emits the PCM16 bytes of the
-- whole stream, resampled at once, in chunks that are full but for a last shorter one.
pub emitted-stop :
    (blocks : List (List Sample)) (context_rate sample_rate chunk_ms : ℕ) (devices : Devices)
    → 0 < context_rate
    → 0 < sample_rate
    → let m = new_microphone context_rate sample_rate chunk_ms devices in
      IsRecording
        (m.chunker).size
        (process silence between (flat blocks) m.resampler).0
        (stop (on_messages blocks m)).emitted
unfolding stop flush IsRest
emitted-stop blocks context_rate sample_rate chunk_ms devices h k =
    let m = new_microphone context_rate sample_rate chunk_ms devices in
    let (chunks, e) = on_messages_lem blocks m refl (create-IsChunking sample_rate chunk_ms 1) in
    let n = on_messages blocks m in
    let (r, all, one) = rest_lem (n.chunker).buffered in
    let whole =
      process_all-process silence between blocks m.resampler
        (create-IsResampling silence context_rate sample_rate h k) in
    let rest =
      rest_of (if ltb 0 (length (n.chunker).buffered) then some (n.chunker).buffered else none) in
    record {
      chunks = chunks;
      rest = rest;
      one = one;
      parts = ap (λ l. l ++ rest) e.emitted;
      full = e.full;
      short =
          All-mono (IsRest (n.chunker).buffered) _
            (λ c p. (p.0, omega (arith, ap length p.1, e.valid, e.size))) rest all;
      same =
          ap (λ l. flat (l ++ rest)) e.emitted
          ∙ rw (flat-append, r) (e.same ∙ rw (buffered-create, whole) refl);
    }
