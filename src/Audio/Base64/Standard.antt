-- ===== src/Audio/Base64/Standard.antt =====
-- The standard's base64 on digits from 0 to 63, with 64 for `=`, and browsers that have it.
use chanx_kit.Audio.Base64.{Browser}
use chanx_kit.Audio.Chunker.{Bytes, IsByte}
use chanx_kit.Audio.Base64.RoundTrip.{IsBase64}
use chanx_kit.Prelude.{
  some, none, All, List, [], arith, eqb, if◌then◌else◌, refl, ℕ, ◌%◌, ◌*◌, ◌++◌, ◌+◌, ◌/◌, ◌∷◌, ◌≡◌,
}

abbrev pub encode : Bytes → List ℕ
encode [] = []
encode (a ∷ []) = (a / 4) ∷ (a % 4 * 16) ∷ 64 ∷ 64 ∷ []
encode (a ∷ b ∷ []) = (a / 4) ∷ (a % 4 * 16 + b / 16) ∷ (b % 16 * 4) ∷ 64 ∷ []
encode (a ∷ b ∷ c ∷ bytes) =
    (a / 4) ∷ (a % 4 * 16 + b / 16) ∷ (b % 16 * 4 + c / 64) ∷ (c % 64) ∷ encode bytes

-- The bytes of four digits, the third and the fourth of which may be `=`.
abbrev group : ℕ → ℕ → ℕ → ℕ → Bytes
group p q r s =
    if eqb r 64
    then (p * 4 + q / 16) ∷ []
    else if eqb s 64
    then (p * 4 + q / 16) ∷ (q % 16 * 16 + r / 4) ∷ []
    else (p * 4 + q / 16) ∷ (q % 16 * 16 + r / 4) ∷ (r % 4 * 64 + s) ∷ []

abbrev pub decode : List ℕ → Bytes
decode (p ∷ q ∷ r ∷ s ∷ digits) = group p q r s ++ decode digits
decode _ = []

group_three :
    (a b c : ℕ)
    → IsByte a
    → IsByte b
    → IsByte c
    → group (a / 4) (a % 4 * 16 + b / 16) (b % 16 * 4 + c / 64) (c % 64) ≡ a ∷ b ∷ c ∷ []
group_three a b c h k l = ground arith

decode-encode : (bytes : Bytes) → All IsByte bytes → decode (encode bytes) ≡ bytes
decode-encode [] h = refl
decode-encode (a ∷ []) h = ground arith
decode-encode (a ∷ b ∷ []) h = ground arith
decode-encode (a ∷ b ∷ c ∷ bytes) h =
    rw (group_three a b c h.0 h.1.0 h.1.1.0, decode-encode bytes h.1.1.1) refl

-- An older browser, with `btoa` and `atob` only.
abbrev pub older : Browser (List ℕ)
older = record { native_to = none; native_from = none; btoa = encode; atob = decode }

-- One that has `Uint8Array.fromBase64` too.
abbrev pub newer : Browser (List ℕ)
newer = record { native_to = none; native_from = some decode; btoa = encode; atob = decode }

none-some : {A : Type 0} (a : A) → none ≡ some a → ⊥
none-some a e = cc

pub older-IsBase64 : IsBase64 older
older-IsBase64 = record {
  decodes = decode-encode;
  encodes_natively = λ f e. absurd (none-some f e);
  decodes_natively = λ f e. absurd (none-some f e);
}

pub newer-IsBase64 : IsBase64 newer
newer-IsBase64 = record {
  decodes = decode-encode;
  encodes_natively = λ f e. absurd (none-some f e);
  decodes_natively = λ f e xs h. let g : decode ≡ f = cc in rw (← g) (decode-encode xs h);
}
