-- ===== src/Player/Playback/Tests.antt =====
-- Runs of the playback worklet. A sample is a number, and 0 is silence.
use chanx_kit.Player.Playback.{Message, Playback, create, on_message, process, fill, round}
use chanx_kit.Player.Playback.Queue.{IsValid, create-IsValid, pending}
use chanx_kit.Player.Playback.Reports.{heard_all-drain, posts, IsNear, last_post, last_post-IsNear}
use chanx_kit.Player.Playback.Stream
use chanx_kit.Player.Playback.Stream.{Event, after_all, heard_all, heard_all_lem, written, after}
use chanx_kit.Prelude.{
  List, [], arith, length, refl, ℕ, ◌++◌, ◌+◌, ◌∷◌, ◌≡◌, any, eqb, replicate, true,
}

abbrev start : Playback ℕ
start = create 3

abbrev ready : Playback ℕ
ready = record start { blocks = (1 ∷ 2 ∷ []) ∷ (3 ∷ 4 ∷ 5 ∷ []) ∷ []; offset = 1; queued = 4 }

ready-IsValid : IsValid ready
ready-IsValid = record { fits = omega arith; counted = refl }

abbrev events : List (Event {A = ℕ} 0)
events =
    Stream.message (Message.write (1 ∷ 2 ∷ []))
    ∷ Stream.block 2
    ∷ Stream.message (Message.write (3 ∷ 4 ∷ []))
    ∷ Stream.block 3
    ∷ []

ready_channel : (process 0 3 ready).channel ≡ 2 ∷ 3 ∷ 4 ∷ []
unfolding process fill round
ready_channel = refl

events_heard : heard_all 0 events start ≡ 1 ∷ 2 ∷ 3 ∷ []
unfolding heard_all on_message process fill round after
events_heard = refl

heard_all_lem_example :
    (heard_all 0 events start ++ pending (after_all 0 events start)
      ≡ pending start ++ written 0 events)
    × ((after_all 0 events start).played ≡ start.played + length (heard_all 0 events start))
heard_all_lem_example = heard_all_lem 0 events start (tt, (tt, (tt, (tt, tt)))) (create-IsValid 3)

abbrev last : Playback ℕ
last = record ready { since_report = 1000 }

last-IsValid : IsValid last
last-IsValid = record { fits = omega arith; counted = refl }

-- Four samples are pending: in two blocks of 2 they are heard, and 1024 samples later the count of
-- samples played has been posted.
heard_all-drain_example :
    (heard_all 0 (replicate 2 (Stream.block 2)) (on_message Message.drain last)
      ≡ 2 ∷ 3 ∷ 4 ∷ 5 ∷ [])
    × (any (eqb 4) (
          posts 0
            (replicate 2 (Stream.block 2) ++ replicate 512 (Stream.block 2))
            (on_message Message.drain last))
        ≡ true)
heard_all-drain_example =
    heard_all-drain 0 2 512 2 last last-IsValid (omega arith) (omega arith) (omega arith)

fresh-IsNear : IsNear 0 0 start
fresh-IsNear = record {
  valid = create-IsValid 3;
  behind = omega arith;
  near = omega arith;
  few = omega arith;
}

last_post-IsNear_example : IsNear 0 (last_post 0 0 events start) (after_all 0 events start)
last_post-IsNear_example = last_post-IsNear 0 events 0 start fresh-IsNear
