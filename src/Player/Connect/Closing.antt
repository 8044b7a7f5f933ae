-- ===== src/Player/Connect/Closing.antt =====
-- What a player tells the server when it falls silent or is closed.
use chanx_kit.Controller.{controller_send, own, relayed, relayed-append}
use chanx_kit.Player.Contract.{playback_mark, ContractToServer}
use chanx_kit.Player.Tracks.{Player, Sound, Track, Sender, mark, played_of}
use chanx_kit.Player.Playback.{Message}
use chanx_kit.Player.Handlers.{drop_all}
use chanx_kit.Player.Tracks.{Speaker, post_to}
use chanx_kit.Prelude.{
  List, Option, [], ap, flat, map, none, refl, some, true, ℕ, ◌++◌, ◌∙◌, ◌∷◌, ◌≡◌,
}

module _ {sound : Sound} where
  -- How much of an utterance has been heard.
  abbrev pub heard_mark : Player sound → Track sound → ContractToServer
  heard_mark p track =
      playback_mark
        (record { payload = record { utterance_id = track.id; played_ms = played_of p track } })

  abbrev pub marks_of : Player sound → List (Track sound) → List (Sender × ContractToServer)
  marks_of p = map (λ track. (own, heard_mark p track))

  marked :
      (now : ℕ) (p : Player sound) (tracks : List (Track sound))
      → p.send ≡ some own
      → flat (map (λ track. (mark now true p track).1) tracks) ≡ marks_of p tracks
  unfolding mark
  marked now p [] e = refl
  marked now p (track ∷ tracks) e = rw (e, marked now p tracks e) refl

  post_to-sent :
      (s : Option (Speaker sound)) (m : Message (sound.Sample)) (p : Player sound)
      → (post_to s m p).sent ≡ p.sent
  post_to-sent none m p = refl
  post_to-sent (some s) m p = refl

  pub sent-drop_all :
      (now : ℕ) (p : Player sound)
      → p.send ≡ some own
      → (drop_all now p).sent ≡ p.sent ++ marks_of p p.tracks
  unfolding drop_all
  sent-drop_all now p e =
      post_to-sent p.speaker Message.clear _ ∙ ap (λ ms. p.sent ++ ms) (marked now p p.tracks e)

  untagged :
      (p : Player sound) (tracks : List (Track sound))
      → map (λ m. m.1) (marks_of p tracks) ≡ map (heard_mark p) tracks
  untagged p [] = refl
  untagged p (track ∷ tracks) = ap (◌∷◌ (heard_mark p track)) (untagged p tracks)

  pub relayed-drop_all :
      (now : ℕ) (p : Player sound)
      → p.send ≡ some own
      → relayed p.sent (drop_all now p).sent ≡ map controller_send (map (heard_mark p) p.tracks)
  relayed-drop_all now p e =
      ap (relayed p.sent) (sent-drop_all now p e)
      ∙ relayed-append p.sent (marks_of p p.tracks)
      ∙ ap (map controller_send) (untagged p p.tracks)
