-- ===== src/AgUi/Thread/Tests.antt =====
-- Runs of a thread, after ui/ag-ui/tests/core.test.ts.
use chanx_kit.AgUi.Contract.{AgUiEvent}
use chanx_kit.AgUi.Contract.Runs.{RunStartedEvent}
use chanx_kit.AgUi.Messages.{Role, text, made, upsert, with_text}
use chanx_kit.AgUi.Messages.Assembly.{calling, message}
use chanx_kit.AgUi.Thread.{AgentThread, apply, create_agent_thread, messages_of}
use chanx_kit.AgUi.Requests.{RunInput}
use chanx_kit.AgUi.Thread.Runs.{event, ask, Call, after_all}
use chanx_kit.AgUi.Thread.Replay.{Numbered, apply_all, rejoin_lem}
use chanx_kit.AgUi.Thread.Streams.{
  content, args, call, events, message-content, messages-call, messages-call_dropped,
}
use chanx_kit.AgUi.Thread.Ids.{HasIds, after_all-HasIds}
use chanx_kit.Prelude.{
  some, none, absent, List, String, [], concat, map, refl, ℕ, ◌++◌, ◌==◌, ◌∷◌, ◌≡◌,
}

abbrev empty_thread : AgentThread
empty_thread = create_agent_thread "t"

abbrev started : RunStartedEvent
started = record {
  metadata = absent;
  timestamp = absent;
  raw_event = absent;
  thread_id = "t";
  run_id = "r1";
  parent_run_id = absent;
  input = absent;
}

abbrev start : String → AgUiEvent
start id = AgUiEvent.text_message_start (record {
  metadata = absent;
  timestamp = absent;
  raw_event = absent;
  message_id = id;
  role = none;
  name = absent;
  subagent_run_id = absent;
})

abbrev finished : AgUiEvent
finished = AgUiEvent.run_finished (record {
  metadata = absent;
  timestamp = absent;
  raw_event = absent;
  thread_id = "t";
  run_id = "r1";
  result = absent;
  outcome = absent;
  usage = absent;
})

abbrev numbered_event : ℕ → AgUiEvent → Numbered
numbered_event seq e = record { fresh = ""; event = e; seq = seq }

abbrev seen : List Numbered
seen = numbered_event 2 (start "m") ∷ numbered_event 3 (content ("m", "Hel")) ∷ []

abbrev rest : List Numbered
rest = numbered_event 4 (content ("m", "lo")) ∷ numbered_event 5 finished ∷ []

abbrev first : Numbered
first = numbered_event 1 (AgUiEvent.run_started started)

rejoined_text :
    messages_of (apply_all ((first ∷ seen) ++ rest) (apply_all (first ∷ seen) empty_thread))
    ≡ made "m" Role.assistant (text "Hello") ∷ []
unfolding apply upsert with_text ◌==◌ concat
rejoined_text = refl

rejoin_lem_example :
    apply_all ((first ∷ seen) ++ rest) (apply_all (first ∷ seen) empty_thread)
    ≡ apply_all ((first ∷ seen) ++ rest) empty_thread
rejoin_lem_example = rejoin_lem first started seen rest empty_thread refl (refl, (refl, tt))

abbrev two_messages : AgentThread
two_messages = events (start "a" ∷ start "b" ∷ []) empty_thread

abbrev deltas : List (String × String)
deltas = ("a", "Hel") ∷ ("b", "x") ∷ ("a", "lo") ∷ []

message-content_example :
    message "a" (messages_of (events (map content deltas) two_messages))
    ≡ some (made "a" Role.assistant (text "Hello"))
unfolding apply upsert ◌==◌ concat
message-content_example =
    message-content "a" "" (made "a" Role.assistant (text "")) deltas two_messages refl

messages-call_example :
    messages_of (events (call "c" "f" "p" ∷ map (args "c") ("{}" ∷ [])) empty_thread)
    ≡ calling "p" "c" "f" "{}" ∷ []
unfolding concat
messages-call_example = messages-call "c" "f" "p" ("{}" ∷ []) empty_thread refl refl refl

messages-call_dropped_example :
    messages_of
      (events (call "c" "f" "p" ∷ content ("p", "Done") ∷ map (args "c") ("{}" ∷ [])) empty_thread)
    ≡ made "p" Role.assistant (text "Done") ∷ []
messages-call_dropped_example =
    messages-call_dropped "c" "f" "p" "Done" ("{}" ∷ []) empty_thread refl refl refl

abbrev no_input : RunInput
no_input = record {
  thread_id = none;
  run_id = none;
  parent_run_id = absent;
  state = none;
  tools = none;
  context = none;
  forwarded_props = none;
  resume = absent;
}

abbrev calls : List Call
calls =
    ask "r1" "u1" "Hi" no_input
    ∷ event "" (AgUiEvent.run_started started) (some 1)
    ∷ event "" (start "m") (some 2)
    ∷ event "" (content ("m", "Hello")) (some 3)
    ∷ event "" finished (some 4)
    ∷ []

after_all-HasIds_example : HasIds (after_all calls empty_thread)
after_all-HasIds_example = after_all-HasIds calls empty_thread (refl, (tt, (tt, (tt, (tt, tt))))) tt
