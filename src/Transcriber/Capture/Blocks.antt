-- ===== src/Transcriber/Capture/Blocks.antt =====
-- What the capture worklet posts.
use chanx_kit.Transcriber.Capture.{Capture, buffer_size, frame, process, store, store_from}
use chanx_kit.Prelude.{
  All, All-append, Bool-cases, List, [], ap, append-nil, append_assoc, arith, eqb, eqb_iff, flat,
  flat-append, inl, inr, length, length-append, suc, sym, zero, ℕ, ◌++◌, ◌<◌, ◌∙◌, ◌∷◌, ◌≡◌,
}

module _ {A : Type 0} where
  -- All samples, posted or not.
  abbrev pub captured : Capture A → List A
  captured c = flat c.posted ++ c.buffer

  abbrev pub IsBlock : List A → Type 0
  IsBlock block = length block ≡ buffer_size

  -- Every block that was posted is full, and the buffer is not.
  abbrev pub IsCapture : Capture A → Type 0
  IsCapture c = All IsBlock c.posted × (length c.buffer < buffer_size)

  -- The mean of each frame of an input, in order.
  abbrev pub means_from : (List A → A) → ℕ → ℕ → List (List A) → List A
  means_from mean i zero input = []
  means_from mean i (suc n) input = mean (frame i input) ∷ means_from mean (suc i) n input

  abbrev pub means : (List A → A) → List (List A) → List A
  means mean [] = []
  means mean (channel ∷ channels) = means_from mean 0 (length channel) (channel ∷ channels)

  captured-store : (a : A) (c : Capture A) → captured (store a c) ≡ captured c ++ a ∷ []
  unfolding store
  captured-store a c = elim (Bool-cases (eqb (length (c.buffer ++ a ∷ [])) buffer_size)) [
    | inl e ↦ rw e (
        append-nil (flat (c.posted ++ (c.buffer ++ a ∷ []) ∷ []))
        ∙ flat-append c.posted ((c.buffer ++ a ∷ []) ∷ [])
        ∙ ap (λ q. flat c.posted ++ q) (append-nil (c.buffer ++ a ∷ []))
        ∙ sym (append_assoc (flat c.posted) c.buffer (a ∷ [])))
    | inr e ↦ rw e (sym (append_assoc (flat c.posted) c.buffer (a ∷ [])))
  ]

  store-IsCapture : (a : A) (c : Capture A) → IsCapture c → IsCapture (store a c)
  unfolding store
  store-IsCapture a c h =
      let l = length-append c.buffer (a ∷ []) in
      elim (Bool-cases (eqb (length (c.buffer ++ a ∷ [])) buffer_size)) [
        | inl e ↦
            let z = (eqb_iff (length (c.buffer ++ a ∷ [])) buffer_size).0 e in
            rw e (All-append IsBlock c.posted ((c.buffer ++ a ∷ []) ∷ []) h.0 (z, tt), omega arith)
        | inr e ↦ rw e (h.0, ground arith)
      ]

  store_from_lem :
      (mean : List A → A) (i n : ℕ) (input : List (List A)) (c : Capture A)
      → IsCapture c
      → IsCapture (store_from mean i n input c)
        × (captured (store_from mean i n input c) ≡ captured c ++ means_from mean i n input)
  unfolding store_from
  store_from_lem mean i zero input c h = (h, sym (append-nil (captured c)))
  store_from_lem mean i (suc n) input c h =
      let a = mean (frame i input) in
      let rest = store_from_lem mean (suc i) n input (store a c) (store-IsCapture a c h) in
      (
        rest.0,
        rest.1
            ∙ ap (λ q. q ++ means_from mean (suc i) n input) (captured-store a c)
            ∙ append_assoc (captured c) (a ∷ []) (means_from mean (suc i) n input),
      )

  abbrev pub process_all : (List A → A) → List (List (List A)) → Capture A → Capture A
  process_all mean [] c = c
  process_all mean (input ∷ inputs) c = process_all mean inputs (process mean input c)

  abbrev pub means_all : (List A → A) → List (List (List A)) → List A
  means_all mean [] = []
  means_all mean (input ∷ inputs) = means mean input ++ means_all mean inputs

  process_lem :
      (mean : List A → A) (input : List (List A)) (c : Capture A)
      → IsCapture c
      → IsCapture (process mean input c)
        × (captured (process mean input c) ≡ captured c ++ means mean input)
  unfolding process
  process_lem mean [] c h = (h, sym (append-nil (captured c)))
  process_lem mean (channel ∷ channels) c h =
      store_from_lem mean 0 (length channel) (channel ∷ channels) c h

  -- Whatever inputs come, empty ones too: the posted blocks all have the full size, what is held back
  -- is less than a block, and the blocks followed by it are the means of all frames, in order.
  pub process_all_lem :
      (mean : List A → A) (inputs : List (List (List A))) (c : Capture A)
      → IsCapture c
      → IsCapture (process_all mean inputs c)
        × (captured (process_all mean inputs c) ≡ captured c ++ means_all mean inputs)
  process_all_lem mean [] c h = (h, sym (append-nil (captured c)))
  process_all_lem mean (input ∷ inputs) c h =
      let one = process_lem mean input c h in
      let rest = process_all_lem mean inputs (process mean input c) one.0 in
      (
        rest.0,
        rest.1
            ∙ ap (λ q. q ++ means_all mean inputs) one.1
            ∙ append_assoc (captured c) (means mean input) (means_all mean inputs),
      )
