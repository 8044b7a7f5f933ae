-- ===== src/Transcriber/Connect/Tests.antt =====
-- A recording that is closed, after ui/transcriber/core.ts.
use chanx_kit.Audio.Chunker.{Bytes}
use chanx_kit.Transcriber.Attempts.{Recorder, RecorderOptions, create_recorder}
use chanx_kit.Controller.{controller_stop, controller_send, own}
use chanx_kit.Transcriber.Connect.{
  Connected, connect_transcriber, start, start_recording, close, relay,
}
use chanx_kit.Transcriber.Connect.Closing.{calls-close, ending}
use chanx_kit.Transcriber.Recorder.{opened, start as start_recorder}
use chanx_kit.Transcriber.Recorder.Steps.{
  Reachable, created, stepped, user_start, microphone_opened,
}
use chanx_kit.Transcriber.Recorder.Silence.{at_once}
use chanx_kit.Prelude.{some, none, String, [], refl, map, ◌++◌, ◌∷◌, ◌≡◌}

-- Only tells the empty text from others.
abbrev encode : Bytes → String
encode [] = ""
encode (b ∷ bytes) = "AA=="

abbrev options : RecorderOptions
options = record { config = none; language = some "en" }

abbrev asked : Recorder
asked = start_recorder own (create_recorder options)

abbrev given : Recorder
given = opened encode 1 none asked

-- A topic that is joined, and a recording in it whose microphone has been given.
abbrev joined : Connected
joined = relay given (start_recording (start (connect_transcriber 10 options)))

given-Reachable : Reachable encode given
unfolding start_recorder
given-Reachable =
    stepped asked given
      (stepped (create_recorder options) asked (created options)
        (user_start own (create_recorder options)))
      (microphone_opened 1 none asked refl)

calls-close_example :
    (relay
      (close encode (some (3 ∷ [])) joined).recorder
      (close encode (some (3 ∷ [])) joined)).calls
    ≡ joined.calls
      ++ map controller_send (ending encode (some (3 ∷ [])) given)
      ++ controller_stop ∷ []
calls-close_example =
    calls-close encode (some (3 ∷ [])) joined (close encode (some (3 ∷ [])) joined).recorder
      given-Reachable at_once
