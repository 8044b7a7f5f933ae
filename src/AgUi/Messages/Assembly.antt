-- ===== src/AgUi/Messages/Assembly.antt =====
-- What a message holds after `upsert`, `appendText`, `startToolCall` and `appendArgs` of
-- ui/ag-ui/core.ts.
use chanx_kit.AgUi.Messages.{
  missing, text, Role, missing, text, text, Message, id_of, upsert, with_text, append_text,
  with_call, Role, append_args, has_call, is_assistant, made, new_call, start_tool_call,
  tool_call_parent,
}
use chanx_kit.Prelude.{
  value, none, some, true, false, value, none, some, true, false, some, none, false, ==_iff,
  ==_refl, List, Option, String, [], arith, concat, find?, has_key, if◌then◌else◌, refl, ◌++◌, ◌==◌,
  ◌∷◌, ◌≡◌, Bool, Bool-cases, any, concat_assoc, concat_empty, inl, inr, is_true, not, sym, true,
  ◌&&◌,
}

-- The message with the id.
abbrev pub message : String → List Message → Option Message
message id = find? (λ m. m.id == id)

pub upsert_absent :
    (id : String) (f : Option Message → Message) (ms : List Message)
    → has_key id_of id ms ≡ false
    → upsert id f ms ≡ ms ++ f none ∷ []
unfolding upsert
upsert_absent id f [] h = refl
upsert_absent id f (m ∷ ms) h = ground (arith, upsert_absent id f ms)

pub upsert-snoc :
    (id : String) (f : Option Message → Message) (ms : List Message) (m : Message)
    → has_key id_of id ms ≡ false
    → m.id ≡ id
    → upsert id f (ms ++ m ∷ []) ≡ ms ++ f (some m) ∷ []
unfolding upsert
upsert-snoc id f [] m h e = rw (e, ==_refl) refl
upsert-snoc id f (n ∷ ms) m h e = ground (arith, upsert-snoc id f ms m)

-- An update that leaves the message its id.
abbrev pub IsNamed : String → (Option Message → Message) → Type 0
IsNamed id f = ((f none).id ≡ id) × ((m : Message) → m.id ≡ id → (f (some m)).id ≡ id)

pub with_text-IsNamed : (id delta : String) → IsNamed id (with_text id delta)
unfolding with_text
with_text-IsNamed id delta = (refl, λ m h. ground arith)

pub with_call-IsNamed : (id c name : String) → IsNamed id (with_call id c name)
unfolding with_call
with_call-IsNamed id c name = (ground arith, λ m h. ground arith)

-- `upsert` changes the message with the id and no other.
pub message-upsert :
    (id j : String) (f : Option Message → Message) (ms : List Message)
    → IsNamed id f
    → message j (upsert id f ms) ≡ (if id == j then some (f (message id ms)) else message j ms)
unfolding upsert
message-upsert id j f [] k = rw (k.0) refl
message-upsert id j f (m ∷ ms) k =
    let s = k.1 m in
    ground (arith, message-upsert id j f ms k, ==_iff m.id id, ==_iff m.id j, ==_iff id j)

-- Deltas of several messages, in the order in which they come: a message's id, and its delta.
abbrev pub append_all : List (String × String) → List Message → List Message
append_all [] ms = ms
append_all (d ∷ ds) ms = append_all ds (append_text d.0 d.1 ms)

-- The deltas of one message, joined.
abbrev pub text_for : String → List (String × String) → String
text_for id [] = ""
text_for id (d ∷ ds) = if d.0 == id then concat d.1 (text_for id ds) else text_for id ds

message-append_text :
    (id j delta s : String) (m : Message) (ms : List Message)
    → message j ms ≡ some (record m { content = text s })
    → message j (append_text id delta ms)
      ≡ some (record m { content = text (if id == j then concat s delta else s) })
unfolding with_text
message-append_text id j delta s m ms h =
    let k = message-upsert id j (with_text id delta) ms (with_text-IsNamed id delta) in
    ground (arith, ==_iff id j)

-- Text deltas of several messages may come interleaved. A message that has a text ends up with that
-- text and its own deltas, in order, and keeps all its other keys.
pub message-append_all :
    (j s : String) (m : Message) (ds : List (String × String)) (ms : List Message)
    → message j ms ≡ some (record m { content = text s })
    → message j (append_all ds ms) ≡ some (record m { content = text (concat s (text_for j ds)) })
message-append_all j s m [] ms h = rw (concat_empty) h
message-append_all j s m (d ∷ ds) ms h =
    let k = message-append_text d.0 j d.1 s m ms h in
    elim (Bool-cases (d.0 == j)) [
      | inl e ↦
          rw (e, sym (concat_assoc s d.1 (text_for j ds)))
            (message-append_all j (concat s d.1) m ds (append_text d.0 d.1 ms) (ground arith))
      | inr e ↦ rw e (message-append_all j s m ds (append_text d.0 d.1 ms) (ground arith))
    ]

-- An assistant message with one call, and with what has come of the call's arguments.
abbrev pub calling : String → String → String → String → Message
calling p c name args = record (made p Role.assistant missing) {
  tool_calls =
      value (record (new_call c name) { function = record { name = name; arguments = args } } ∷ []);
}

-- No assistant message has the call.
abbrev pub has_no_call : String → List Message → Bool
has_no_call c ms = not (any (λ m. is_assistant m.role && has_call c m) ms)

start_tool_call_new :
    (c name p : String) (ms : List Message)
    → is_true p ≡ true
    → has_key id_of p ms ≡ false
    → start_tool_call c name (some p) ms ≡ ms ++ calling p c name "" ∷ []
unfolding start_tool_call with_call
start_tool_call_new c name p ms t h = rw t (upsert_absent p (with_call p c name) ms h)

tool_call_parent-calling :
    (c name p args : String) (ms : List Message)
    → has_no_call c ms ≡ true
    → tool_call_parent c (ms ++ calling p c name args ∷ []) ≡ some (calling p c name args)
tool_call_parent-calling c name p args [] h = rw ==_refl refl
tool_call_parent-calling c name p args (m ∷ ms) h =
    ground (arith, tool_call_parent-calling c name p args ms)

append_args-calling :
    (c name p args delta : String) (ms : List Message)
    → has_key id_of p ms ≡ false
    → has_no_call c ms ≡ true
    → append_args c delta (ms ++ calling p c name args ∷ [])
      ≡ ms ++ calling p c name (concat args delta) ∷ []
unfolding append_args
append_args-calling c name p args delta ms h k =
    rw
      (
        append_args,
        tool_call_parent-calling c name p args ms k,
        upsert-snoc p _ ms (calling p c name args) h refl,
        ==_refl,
      )
      refl

abbrev pub append_args_all : String → List String → List Message → List Message
append_args_all c [] ms = ms
append_args_all c (d ∷ ds) ms = append_args_all c ds (append_args c d ms)

abbrev pub join_all : List String → String
join_all [] = ""
join_all (d ∷ ds) = concat d (join_all ds)

append_args_all-calling :
    (c name p args : String) (ds : List String) (ms : List Message)
    → has_key id_of p ms ≡ false
    → has_no_call c ms ≡ true
    → append_args_all c ds (ms ++ calling p c name args ∷ [])
      ≡ ms ++ calling p c name (concat args (join_all ds)) ∷ []
append_args_all-calling c name p args [] ms h k = rw concat_empty refl
append_args_all-calling c name p args (d ∷ ds) ms h k =
    rw (append_args-calling c name p args d ms h k, sym (concat_assoc args d (join_all ds)))
      (append_args_all-calling c name p (concat args d) ds ms h k)

pub append_args_all_new :
    (c name p : String) (ds : List String) (ms : List Message)
    → is_true p ≡ true
    → has_key id_of p ms ≡ false
    → has_no_call c ms ≡ true
    → append_args_all c ds (start_tool_call c name (some p) ms)
      ≡ ms ++ calling p c name (concat "" (join_all ds)) ∷ []
append_args_all_new c name p ds ms t h k =
    rw (start_tool_call_new c name p ms t h) (append_args_all-calling c name p "" ds ms h k)

append_text-calling :
    (c name p delta : String) (ms : List Message)
    → has_key id_of p ms ≡ false
    → append_text p delta (ms ++ calling p c name "" ∷ [])
      ≡ ms ++ made p Role.assistant (text delta) ∷ []
unfolding with_text
append_text-calling c name p delta ms h =
    upsert-snoc p (with_text p delta) ms (calling p c name "") h refl

tool_call_parent-none :
    (c p s : String) (ms : List Message)
    → has_no_call c ms ≡ true
    → tool_call_parent c (ms ++ made p Role.assistant (text s) ∷ []) ≡ none
tool_call_parent-none c p s [] h = refl
tool_call_parent-none c p s (m ∷ ms) h = ground (arith, tool_call_parent-none c p s ms)

append_args_all-none :
    (c : String) (ds : List String) (ms : List Message)
    → tool_call_parent c ms ≡ none
    → append_args_all c ds ms ≡ ms
unfolding append_args
append_args_all-none c [] ms h = refl
append_args_all-none c (d ∷ ds) ms h = rw (append_args, h) (append_args_all-none c ds ms h)

pub append_args_all_dropped :
    (c name p delta : String) (ds : List String) (ms : List Message)
    → is_true p ≡ true
    → has_key id_of p ms ≡ false
    → has_no_call c ms ≡ true
    → append_args_all c ds (append_text p delta (start_tool_call c name (some p) ms))
      ≡ ms ++ made p Role.assistant (text delta) ∷ []
append_args_all_dropped c name p delta ds ms t h k =
    rw (start_tool_call_new c name p ms t h, append_text-calling c name p delta ms h)
      (append_args_all-none c ds _ (tool_call_parent-none c p delta ms k))
