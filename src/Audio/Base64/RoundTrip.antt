-- ===== src/Audio/Base64/RoundTrip.antt =====
-- The slices lose nothing, and what is encoded is decoded.
use chanx_kit.Audio.Base64.{Browser, from_base64, join_slices, to_base64}
use chanx_kit.Audio.Chunker.{Bytes, IsByte}
use chanx_kit.Prelude.{
  some, All, Bool-cases, List, Option-cases, [], append-nil, append_assoc, arith, drop, drop-drop,
  drop_all, inl, inr, length, ltb, map, refl, suc, sym, take, take-append-drop, zero, ℕ, ◌%◌, ◌++◌,
  ◌+◌, ◌∙◌, ◌∷◌, ◌≡◌, ◌≤◌,
}

join_slices_lem :
    (fuel : ℕ) (bytes : Bytes) (i : ℕ) (binary : List ℕ)
    → length bytes ≤ fuel + i
    → join_slices fuel bytes i binary ≡ binary ++ drop i bytes
unfolding join_slices
join_slices_lem zero bytes i binary h =
    rw (drop_all i bytes (omega arith)) (sym (append-nil binary))
join_slices_lem (suc fuel) bytes i binary h = elim (Bool-cases (ltb i (length bytes))) [
  | inl more ↦
      rw
        (
          more,
          join_slices_lem fuel bytes (i + 0x8000) (binary ++ take 0x8000 (drop i bytes))
              (omega arith),
        )
        (append_assoc binary (take 0x8000 (drop i bytes)) (drop (i + 0x8000) bytes)
          ∙ rw (← drop-drop, take-append-drop) refl)
  | inr less ↦ rw (less, drop_all i bytes (ground arith)) (sym (append-nil binary))
]

-- The slices of the fallback, joined, are the bytes.
pub join_slices_all : (bytes : Bytes) → join_slices (length bytes) bytes 0 [] ≡ bytes
join_slices_all bytes = join_slices_lem (length bytes) bytes 0 [] (omega arith)

-- What the standard asks of the browser: texts of bytes decode to them, whichever encoder and
-- decoder it has.
pub record IsBase64 {Text : Type 0} (b : Browser Text) : Type 0 where
  pub decodes : (xs : Bytes) → All IsByte xs → b.atob (b.btoa xs) ≡ xs
  pub encodes_natively :
      (f : Bytes → Text) → b.native_to ≡ some f → (xs : Bytes) → All IsByte xs → f xs ≡ b.btoa xs
  pub decodes_natively :
      (f : Text → Bytes)
      → b.native_from ≡ some f
      → (xs : Bytes) → All IsByte xs
      → f (b.btoa xs) ≡ xs

module _ {Text : Type 0} (b : Browser Text) where
  to_base64_lem : (bytes : Bytes) → IsBase64 b → All IsByte bytes → to_base64 b bytes ≡ b.btoa bytes
  unfolding to_base64
  to_base64_lem bytes v h = elim (Option-cases b.native_to) [
    | inl e ↦ rw (e, join_slices_all bytes) refl
    | inr (f, e) ↦ rw e (v.encodes_natively f e bytes h)
  ]

  kept_bytes : (xs : Bytes) → All IsByte xs → map (λ unit. unit % 0x100) xs ≡ xs
  kept_bytes [] h = refl
  kept_bytes (x ∷ xs) h = let e : x % 0x100 ≡ x = omega arith in rw (e, kept_bytes xs h.1) refl

  from_base64_lem :
      (bytes : Bytes) → IsBase64 b → All IsByte bytes → from_base64 b (b.btoa bytes) ≡ bytes
  unfolding from_base64
  from_base64_lem bytes v h = elim (Option-cases b.native_from) [
    | inl e ↦ rw (e, v.decodes bytes h) (kept_bytes bytes h)
    | inr (f, e) ↦ rw e (v.decodes_natively f e bytes h)
  ]

  -- Bytes that are encoded are decoded to themselves, whether the browser has the native functions
  -- or not, given that its encoders and decoders agree on the bytes.
  pub from_base64-to_base64 :
      (bytes : Bytes) → IsBase64 b → All IsByte bytes → from_base64 b (to_base64 b bytes) ≡ bytes
  from_base64-to_base64 bytes v h = rw (to_base64_lem bytes v h) (from_base64_lem bytes v h)
