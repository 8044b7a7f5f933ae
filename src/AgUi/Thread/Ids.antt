-- ===== src/AgUi/Thread/Ids.antt =====
-- The ids of a thread's messages, through `apply` and `run` of ui/ag-ui/core.ts.
use chanx_kit.AgUi.Contract.{AgUiEvent}
use chanx_kit.AgUi.Contract.ToolEvents.{ToolCallChunkEvent}
use chanx_kit.AgUi.Messages.{
  text, Content, Message, Role, append_args, assistant_for, id_of, made, of_message,
  start_tool_call, tool_call_parent,
}
use chanx_kit.AgUi.Messages.Assembly.{IsNamed, with_call-IsNamed, with_text-IsNamed}
use chanx_kit.AgUi.Messages.Ids.{IsThread, upsert-IsThread}
use chanx_kit.AgUi.Thread.{
  start_role, AgentThread, apply, dispatch, is_applied, is_refusal, messages_of, numbered,
  show_args, show_call, show_chunk,
}
use chanx_kit.AgUi.Requests.{run, user_message}
use chanx_kit.AgUi.Thread.Runs.{event, ask, Call, after, after_all}
use chanx_kit.Prelude.{
  some, none, false, Distinct-snoc, List, Option, String, [], has_key, if_both, is_true, map,
  or_else, read, refl, ℕ, ◌∷◌, ◌≡◌, Option-cases, inl, inr,
}

abbrev pub HasIds : AgentThread → Type 0
HasIds t = IsThread (messages_of t)

-- What is asked of the server and of `newId`: a snapshot of messages has no id twice, and the id
-- that is made for the user's message is new.
abbrev pub IsFairEvent : AgUiEvent → Type 0
IsFairEvent (AgUiEvent.messages_snapshot e) = IsThread (map of_message e.messages)
IsFairEvent _ = Unit

abbrev pub IsFair : Call → AgentThread → Type 0
IsFair (event fresh e seq) t = IsFairEvent e
IsFair (ask fresh_run fresh_message content input) t =
    has_key id_of fresh_message (messages_of t) ≡ false

append_args-IsThread :
    (c d : String) (ms : List Message) → IsThread ms → IsThread (append_args c d ms)
unfolding append_args
append_args-IsThread c d ms h = elim (Option-cases (tool_call_parent c ms)) [
  | inl e ↦ rw (append_args, e) h
  | inr (parent, e) ↦ rw (append_args, e) (upsert-IsThread parent.id _ ms (refl, λ m k. refl) h)
]

start_tool_call-IsThread :
    (c name : String) (parent : Option String) (ms : List Message)
    → IsThread ms
    → IsThread (start_tool_call c name parent ms)
unfolding start_tool_call
start_tool_call-IsThread c name parent ms h =
    upsert-IsThread _ _ ms (with_call-IsNamed (assistant_for c parent ms) c name) h

show_args-HasIds : (c d : String) (t : AgentThread) → HasIds t → HasIds (show_args c d t)
show_args-HasIds c d t h = elim (Option-cases (tool_call_parent c (messages_of t))) [
  | inl e ↦ rw (show_args, e) h
  | inr (parent, e) ↦ rw (show_args, e) (append_args-IsThread c d (messages_of t) h)
]

show_chunk-HasIds :
    (c : String) (e : ToolCallChunkEvent) (t : AgentThread) → HasIds t → HasIds (show_chunk c e t)
show_chunk-HasIds c e t h = elim (Option-cases (tool_call_parent c (messages_of t))) [
  | inl k ↦
      rw (show_chunk, k)
        (show_args-HasIds c _
          (show_call c (or_else (read e.tool_call_name) "") (read e.parent_message_id) t)
          (start_tool_call-IsThread c _ _ (messages_of t) h))
  | inr (parent, k) ↦ rw (show_chunk, k) (show_args-HasIds c _ t h)
]

started-IsNamed : (id : String) (r : Role) (c : Content) → IsNamed id (λ m. or_else m (made id r c))
started-IsNamed id r c = (refl, λ m h. h)

dispatch-HasIds :
    (fresh : String) (e : AgUiEvent) (seq : Option ℕ) (t : AgentThread)
    → IsFairEvent e
    → HasIds t
    → HasIds (dispatch fresh e seq t)
unfolding dispatch
dispatch-HasIds fresh (AgUiEvent.run_error e) seq t f h = if_both HasIds (is_refusal seq t) h h
dispatch-HasIds fresh (AgUiEvent.text_message_start e) seq t f h =
    upsert-IsThread e.message_id _ (messages_of t)
      (started-IsNamed e.message_id (start_role e.role) (text "")) h
dispatch-HasIds fresh (AgUiEvent.text_message_content e) seq t f h =
    upsert-IsThread e.message_id _ (messages_of t) (with_text-IsNamed e.message_id e.delta) h
dispatch-HasIds fresh (AgUiEvent.text_message_chunk e) seq t f h =
    upsert-IsThread _ _ (messages_of t) (with_text-IsNamed _ _) h
dispatch-HasIds fresh (AgUiEvent.tool_call_start e) seq t f h =
    start_tool_call-IsThread e.tool_call_id _ _ (messages_of t) h
dispatch-HasIds fresh (AgUiEvent.tool_call_args e) seq t f h =
    show_args-HasIds e.tool_call_id e.delta t h
dispatch-HasIds fresh (AgUiEvent.tool_call_chunk e) seq t f h =
    elim (Option-cases (read e.tool_call_id)) [
      | inl k ↦ rw (dispatch, k) h
      | inr (id, k) ↦ rw (dispatch, k) (if_both HasIds (is_true id) (show_chunk-HasIds id e t h) h)
    ]
dispatch-HasIds fresh (AgUiEvent.tool_call_result e) seq t f h =
    upsert-IsThread e.message_id _ (messages_of t) (refl, λ m k. refl) h
dispatch-HasIds fresh (AgUiEvent.messages_snapshot e) seq t f h = f
dispatch-HasIds fresh _ seq t f h = h

after-HasIds : (c : Call) (t : AgentThread) → IsFair c t → HasIds t → HasIds (after c t)
unfolding apply run
after-HasIds (event fresh e none) t f h = dispatch-HasIds fresh e none t f h
after-HasIds (event fresh e (some seq)) t f h =
    if_both HasIds (is_applied seq e t) h
      (dispatch-HasIds fresh e (some seq) (numbered seq e t) f h)
after-HasIds (ask fresh_run fresh_message content input) t f h =
    Distinct-snoc id_of (messages_of t) (user_message fresh_message content) h f

-- The conditions along a sequence of calls.
abbrev pub AllFair : List Call → AgentThread → Type 0
AllFair [] t = Unit
AllFair (c ∷ cs) t = IsFair c t × AllFair cs (after c t)

-- If no snapshot from the server has an id twice, and the ids made for the user's messages are new,
-- then no message id is ever twice in a thread: text, tool calls and results that name an id update
-- the message that has it.
pub after_all-HasIds :
    (cs : List Call) (t : AgentThread) → AllFair cs t → HasIds t → HasIds (after_all cs t)
after_all-HasIds [] t f h = h
after_all-HasIds (c ∷ cs) t f h = after_all-HasIds cs (after c t) f.1 (after-HasIds c t f.0 h)
