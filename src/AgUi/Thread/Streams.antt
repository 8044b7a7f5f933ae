-- ===== src/AgUi/Thread/Streams.antt =====
-- What the events of a stream leave in a thread, through `apply` of ui/ag-ui/core.ts. The events
-- come without numbers, as a server that does not broadcast the run sends them.
use chanx_kit.AgUi.Contract.{AgUiEvent}
use chanx_kit.AgUi.Messages.{text, Role, Role, text, Message, append_args, id_of, made}
use chanx_kit.AgUi.Messages.Assembly.{
  append_all, append_args_all, message, message-append_all, text_for, append_args_all_dropped,
  append_args_all_new, calling, has_no_call, join_all,
}
use chanx_kit.AgUi.Thread.{AgentThread, apply, messages_of, show_args}
use chanx_kit.Prelude.{
  value, absent, none, some, true, false, value, absent, some, none, true, false, List, String, [],
  ap, concat, map, refl, ◌∷◌, ◌≡◌, arith, has_key, is_true, ◌++◌, ◌∙◌,
}

abbrev pub events : List AgUiEvent → AgentThread → AgentThread
events [] t = t
events (e ∷ es) t = events es (apply "" e none t)

abbrev pub content : String × String → AgUiEvent
content d = AgUiEvent.text_message_content (record {
  metadata = absent;
  timestamp = absent;
  raw_event = absent;
  message_id = d.0;
  delta = d.1;
  subagent_run_id = absent;
})

abbrev pub args : String → String → AgUiEvent
args c delta = AgUiEvent.tool_call_args (record {
  metadata = absent;
  timestamp = absent;
  raw_event = absent;
  tool_call_id = c;
  delta = delta;
  subagent_run_id = absent;
})

abbrev pub call : String → String → String → AgUiEvent
call c name parent = AgUiEvent.tool_call_start (record {
  metadata = absent;
  timestamp = absent;
  raw_event = absent;
  tool_call_id = c;
  tool_call_name = name;
  parent_message_id = value parent;
  subagent_run_id = absent;
})

messages-content :
    (ds : List (String × String)) (t : AgentThread)
    → messages_of (events (map content ds) t) ≡ append_all ds (messages_of t)
unfolding apply
messages-content [] t = refl
messages-content (d ∷ ds) t = messages-content ds (apply "" (content d) none t)

-- The text deltas of several messages come interleaved, as events without numbers. A message of the
-- thread that has a text ends up with that text and its own deltas, in the order in which they came,
-- and its other keys stay.
pub message-content :
    (j s : String) (m : Message) (ds : List (String × String)) (t : AgentThread)
    → message j (messages_of t) ≡ some (record m { content = text s })
    → message j (messages_of (events (map content ds) t))
      ≡ some (record m { content = text (concat s (text_for j ds)) })
message-content j s m ds t h =
    rw (messages-content ds t) (message-append_all j s m ds (messages_of t) h)

messages-show_args :
    (c d : String) (t : AgentThread)
    → messages_of (show_args c d t) ≡ append_args c d (messages_of t)
unfolding append_args
messages-show_args c d t = ground arith

messages-args :
    (c : String) (ds : List String) (t : AgentThread)
    → messages_of (events (map (args c) ds) t) ≡ append_args_all c ds (messages_of t)
unfolding apply
messages-args c [] t = refl
messages-args c (d ∷ ds) t =
    messages-args c ds (apply "" (args c d) none t)
    ∙ ap (append_args_all c ds) (messages-show_args c d t)

-- A tool call that starts under a message id that is given and new, with a call id that no assistant
-- message has, followed by pieces of its arguments, leaves one new assistant message at the end, with
-- that call alone, whose arguments are the pieces in order; all other messages stay.
pub messages-call :
    (c name p : String) (ds : List String) (t : AgentThread)
    → is_true p ≡ true
    → has_key id_of p (messages_of t) ≡ false
    → has_no_call c (messages_of t) ≡ true
    → messages_of (events (call c name p ∷ map (args c) ds) t)
      ≡ messages_of t ++ calling p c name (concat "" (join_all ds)) ∷ []
unfolding apply
messages-call c name p ds t h k n =
    messages-args c ds (apply "" (call c name p) none t)
    ∙ append_args_all_new c name p ds (messages_of t) h k n

-- A tool call starts under a message id that is given and new, with a call id that no assistant
-- message has. If a text delta for that message comes next, then the call is lost: the message is
-- replaced by one with the text alone, and pieces of the call's arguments after it change nothing.
pub messages-call_dropped :
    (c name p delta : String) (ds : List String) (t : AgentThread)
    → is_true p ≡ true
    → has_key id_of p (messages_of t) ≡ false
    → has_no_call c (messages_of t) ≡ true
    → messages_of (events (call c name p ∷ content (p, delta) ∷ map (args c) ds) t)
      ≡ messages_of t ++ made p Role.assistant (text delta) ∷ []
unfolding apply
messages-call_dropped c name p delta ds t h k n =
    messages-args c ds (events (call c name p ∷ content (p, delta) ∷ []) t)
    ∙ append_args_all_dropped c name p delta ds (messages_of t) h k n
