-- ===== src/Controller.antt =====
-- What the `connect…` functions of ui/*/core.ts ask of the topic controller of the client library: the calls
-- of `start`, `stop` and `send`, in their order. What the controller does on them is not modelled.
use chanx_kit.Prelude.{
  List, [], ap, arith, drop, drop_all, length, map, refl, ℕ, ◌++◌, ◌∙◌, ◌∷◌, ◌≡◌,
}

module _ (M : Type 0) where
  pub data Call : Type 0 where
    controller_start controller_stop : Call
    controller_send : M → Call

-- The identity of `(message) => controller.send(message)`.
abbrev pub own : ℕ
own = 1

drop-append : {A : Type 0} (xs ys : List A) → drop (length xs) (xs ++ ys) ≡ ys
drop-append [] ys = refl
drop-append (x ∷ xs) ys = drop-append xs ys

module _ {M : Type 0} where
  -- A message that was given to `own`.
  abbrev pub call_of : ℕ × M → Call M
  call_of m = controller_send m.1

  -- What has been given to `own` since the messages were `before`.
  abbrev pub relayed : List (ℕ × M) → List (ℕ × M) → List (Call M)
  relayed before after = map call_of (drop (length before) after)

  pub calls_of : (ms : List (ℕ × M)) → map call_of ms ≡ map controller_send (map (λ m. m.1) ms)
  calls_of [] = refl
  calls_of (m ∷ ms) = ap (◌∷◌ (controller_send m.1)) (calls_of ms)

  pub relayed-append :
      (before new : List (ℕ × M))
      → relayed before (before ++ new) ≡ map controller_send (map (λ m. m.1) new)
  relayed-append before new = ap (map call_of) (drop-append before new) ∙ calls_of new

  pub relayed_none : (before : List (ℕ × M)) → relayed before before ≡ []
  relayed_none before = ap (map call_of) (drop_all (length before) before (omega arith))
