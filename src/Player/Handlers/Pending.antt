-- ===== src/Player/Handlers/Pending.antt =====
-- Audio that arrives while the speaker is opening.
use chanx_kit.Player.Contract.{synthesizer_error, ContractToClient}
use chanx_kit.Player.Tracks.{Player, Sound}
use chanx_kit.Player.Handlers.{on, opened, play_all}
use chanx_kit.Prelude.{
  none, true, false, All, Bool, List, [], ap, append-nil, append_assoc, refl, sym, ℕ, ◌++◌, ◌∙◌,
  ◌∷◌, ◌≡◌,
}

-- A message whose handler waits for the speaker: all but errors.
abbrev pub is_audio : ContractToClient → Bool
is_audio (synthesizer_error m) = false
is_audio _ = true

abbrev pub IsAudio : ContractToClient → Type 0
IsAudio m = is_audio m ≡ true

module _ {sound : Sound} where
  -- The player while its speaker is being opened.
  abbrev pub waiting : Player sound → Player sound
  waiting p = record p { speaker = none; opening = true }

  on_waiting :
      (now : ℕ) (m : ContractToClient) (p : Player sound)
      → IsAudio m
      → on now m (waiting p) ≡ waiting (record p { pending = p.pending ++ m ∷ [] })
  unfolding on
  on_waiting now (synthesizer_error m) p h = cc
  on_waiting now _ p h = refl

  play_all_waiting :
      (now : ℕ) (ms : List ContractToClient) (p : Player sound)
      → All IsAudio ms
      → play_all now ms (waiting p) ≡ waiting (record p { pending = p.pending ++ ms })
  unfolding play_all
  play_all_waiting now [] p h =
      ap (λ q. waiting (record p { pending = q })) (sym (append-nil p.pending))
  play_all_waiting now (m ∷ ms) p h =
      ap (play_all now ms) (on_waiting now m p h.0)
      ∙ play_all_waiting now ms (record p { pending = p.pending ++ m ∷ [] }) h.1
      ∙ ap (λ q. waiting (record p { pending = q })) (append_assoc p.pending (m ∷ []) ms)

  pub play_all-append :
      (now : ℕ) (ms ns : List ContractToClient) (p : Player sound)
      → play_all now (ms ++ ns) p ≡ play_all now ns (play_all now ms p)
  unfolding play_all
  play_all-append now [] ns p = refl
  play_all-append now (m ∷ ms) ns p = play_all-append now ms ns (on now m p)

  -- Starts, chunks, ends and clears that arrive while the speaker is opening, after any that wait
  -- already, have the effect that they would have if they came just after it opened: nothing is lost
  -- and the order stays.
  pub opened-play_all :
      (now sample_rate : ℕ) (suspended : Bool) (ms : List ContractToClient) (p : Player sound)
      → All IsAudio ms
      → opened now sample_rate suspended (play_all now ms (waiting p))
        ≡ play_all now ms (opened now sample_rate suspended (waiting p))
  unfolding opened
  opened-play_all now sample_rate suspended ms p h =
      ap (opened now sample_rate suspended) (play_all_waiting now ms p h)
      ∙ play_all-append now p.pending ms _
