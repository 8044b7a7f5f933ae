-- ===== src/AgUi/Messages.antt =====
-- The messages of a thread, as `createAgentThread` of ui/ag-ui/core.ts assembles them from deltas:
-- `upsert`, `appendText`, `startToolCall` and `appendArgs`, on the list of messages.
pub mod Assembly
pub mod Ids
use chanx_kit.AgUi.Contract
use chanx_kit.AgUi.Contract.Messages
use chanx_kit.AgUi.Contract.Messages.{AgUiMessage}
use chanx_kit.AgUi.Contract.Content.{plain, parts, UserContent}
use chanx_kit.AgUi.Contract.Parts.{ToolCall}
use chanx_kit.Prelude.{
  value, Bool, Field, List, Option, String, [], absent, any, concat, false, find?, if◌then◌else◌,
  is_true, last?, map, none, null, or_else, read, some, true, ◌&&◌, ◌++◌, ◌==◌, ◌∷◌,
}

pub data Role : Type 0 where
  developer system assistant user tool activity reasoning : Role

-- A message's `content` key: left out, `null`, a string, or an object.
pub data Content : Type 0 where
  missing : Content
  empty : Content
  text : String → Content
  object : Content

-- A message as a JavaScript object: the keys that the thread reads or changes, and the message from
-- which the spreads `{ ...message }` have taken all other keys, if the server sent one.
pub record Message : Type 0 where
  pub id : String
  pub role : Role
  pub content : Content
  pub tool_calls : Field (List ToolCall)
  pub origin : Option AgUiMessage

abbrev pub content_of : Field String → Content
content_of absent = missing
content_of null = empty
content_of (value s) = text s

abbrev pub user_content : UserContent → Content
user_content (plain s) = text s
user_content (parts ps) = object

-- A message that the server sent.
abbrev pub of_message : AgUiMessage → Message
of_message (AgUiMessage.developer m) = record {
  id = m.id;
  role = developer;
  content = text m.content;
  tool_calls = absent;
  origin = some (AgUiMessage.developer m);
}
of_message (AgUiMessage.system m) = record {
  id = m.id;
  role = system;
  content = text m.content;
  tool_calls = absent;
  origin = some (AgUiMessage.system m);
}
of_message (AgUiMessage.assistant m) = record {
  id = m.id;
  role = assistant;
  content = content_of m.content;
  tool_calls = m.tool_calls;
  origin = some (AgUiMessage.assistant m);
}
of_message (AgUiMessage.user m) = record {
  id = m.id;
  role = user;
  content = user_content m.content;
  tool_calls = absent;
  origin = some (AgUiMessage.user m);
}
of_message (AgUiMessage.tool m) = record {
  id = m.id;
  role = tool;
  content = text m.content;
  tool_calls = absent;
  origin = some (AgUiMessage.tool m);
}
of_message (AgUiMessage.activity m) = record {
  id = m.id;
  role = activity;
  content = object;
  tool_calls = absent;
  origin = some (AgUiMessage.activity m);
}
of_message (AgUiMessage.reasoning m) = record {
  id = m.id;
  role = reasoning;
  content = text m.content;
  tool_calls = absent;
  origin = some (AgUiMessage.reasoning m);
}

abbrev pub id_of : Message → String
id_of m = m.id

-- A message that the thread makes: `{ id, role, content }`, or `{ id, role }`.
abbrev pub made : String → Role → Content → Message
made id role content = record {
  id = id;
  role = role;
  content = content;
  tool_calls = absent;
  origin = none;
}

-- `upsert`: the first message with the id is updated, or a new one is put at the end.
unfoldable pub upsert : String → (Option Message → Message) → List Message → List Message
upsert id update [] = update none ∷ []
upsert id update (m ∷ ms) = if m.id == id then update (some m) ∷ ms else m ∷ upsert id update ms

-- `'content' in message && typeof message.content !== 'object'` holds of a string alone: the type
-- of `null` is 'object'.
unfoldable pub with_text : String → String → Option Message → Message
with_text id delta none = made id assistant (text delta)
with_text id delta (some m) = elim m.content [
  | text s ↦ record m { content = text (concat s delta) }
  | _ ↦ made id assistant (text delta)
]

abbrev pub append_text : String → String → List Message → List Message
append_text id delta = upsert id (with_text id delta)

abbrev pub is_assistant : Role → Bool
is_assistant assistant = true
is_assistant _ = false

-- `parentId ?? the last message, if it is the assistant's ?? toolCallId`
unfoldable pub assistant_for : String → Option String → List Message → String
assistant_for tool_call_id parent_id ms =
    let fallback : String = elim (last? ms) [
      | none ↦ tool_call_id
      | some m ↦ if is_assistant m.role then m.id else tool_call_id
    ] in
    elim parent_id [ none ↦ fallback | some p ↦ if is_true p then p else fallback ]

-- `message.toolCalls ?? []`
abbrev pub calls_of : Message → List ToolCall
calls_of m = or_else (read m.tool_calls) []

-- `message.toolCalls?.some((call) => call.id === toolCallId)`
abbrev pub has_call : String → Message → Bool
has_call tool_call_id m = any (λ call. call.id == tool_call_id) (calls_of m)

-- `toolCallParent`
abbrev pub tool_call_parent : String → List Message → Option Message
tool_call_parent tool_call_id = find? (λ m. is_assistant m.role && has_call tool_call_id m)

abbrev pub new_call : String → String → ToolCall
new_call tool_call_id name = record {
  metadata = absent;
  id = tool_call_id;
  function = record { name = name; arguments = "" };
  encrypted_value = absent;
}

unfoldable pub with_call : String → String → String → Option Message → Message
with_call id tool_call_id name found =
    let m = or_else found (made id assistant missing) in
    if has_call tool_call_id m
    then m
    else record m { tool_calls = value (calls_of m ++ new_call tool_call_id name ∷ []) }

unfoldable pub start_tool_call : String → String → Option String → List Message → List Message
unfolding assistant_for
start_tool_call tool_call_id name parent_id ms =
    let id = assistant_for tool_call_id parent_id ms in
    upsert id (with_call id tool_call_id name) ms

-- `call.function.arguments + delta`, for the calls with the id
abbrev pub with_args : String → String → ToolCall → ToolCall
with_args tool_call_id delta call =
    if call.id == tool_call_id
    then record call {
      function = record (call.function) { arguments = concat (call.function).arguments delta };
    }
    else call

-- `parent.toolCalls?.map(…)`
abbrev pub map_calls : (ToolCall → ToolCall) → Field (List ToolCall) → Field (List ToolCall)
map_calls f absent = absent
map_calls f null = absent
map_calls f (value calls) = value (map f calls)

unfoldable pub append_args : String → String → List Message → List Message
append_args tool_call_id delta ms = elim (tool_call_parent tool_call_id ms) [
  | none ↦ ms
  | some parent ↦
      upsert parent.id
        (λ found. record parent {
          tool_calls = map_calls (with_args tool_call_id delta) parent.tool_calls;
        })
        ms
]
