-- ===== src/Presence/Roster/Refine.antt =====
-- The roster as what it promises: who is present, by id. A join adds or replaces one member, a
-- leave takes one away, and a state replaces all.
use mathlib.Core.Path.{fun_ext}
use chanx_kit.Presence.Contract.{ContractToClient, PresenceMember}
use chanx_kit.Presence.Roster.{PresenceRoster, create_presence_roster, on, on_all, others}
use chanx_kit.Prelude.{
  ==_iff, List, Option, String, [], ap, arith, find?, if◌then◌else◌, none, refl, some, without,
  ◌++◌, ◌==◌, ◌∙◌, ◌∷◌, ◌≡◌,
}

abbrev pub Present : Type 0
Present = String → Option PresenceMember

abbrev pub present : List PresenceMember → Present
present members id = find? (λ m. m.id == id) members

abbrev pub after : ContractToClient → Present → Present
after (ContractToClient.presence_state message) who id = present message.payload.members id
after (ContractToClient.presence_join message) who id =
    let member = message.payload.member in if member.id == id then some member else who id
after (ContractToClient.presence_leave message) who id =
    if message.payload.member.id == id then none else who id

abbrev pub after_all : List ContractToClient → Present → Present
after_all [] who = who
after_all (m ∷ ms) who = after_all ms (after m who)

present-without :
    (k id : String) (members : List PresenceMember)
    → present (without (λ m. m.id) k members) id ≡ (if k == id then none else present members id)
present-without k id [] = ground arith
present-without k id (m ∷ ms) =
    ground (arith, present-without k id ms, ==_iff m.id k, ==_iff m.id id, ==_iff k id)

present-append :
    (id : String) (xs : List PresenceMember) (m : PresenceMember)
    → present (xs ++ m ∷ []) id
      ≡ elim (present xs id) [ none ↦ (if m.id == id then some m else none) | some x ↦ some x ]
present-append id [] m = refl
present-append id (x ∷ xs) m = ground (arith, present-append id xs m)

on-after :
    (m : ContractToClient) (roster : PresenceRoster) (id : String)
    → present (on m roster).snapshot.members id ≡ after m (present roster.snapshot.members) id
unfolding on
on-after (ContractToClient.presence_state message) roster id = refl
on-after (ContractToClient.presence_join message) roster id =
    let member = message.payload.member in
    ground (
      arith,
      present-append id (others member roster) member,
      present-without member.id id roster.snapshot.members,
    )
on-after (ContractToClient.presence_leave message) roster id =
    present-without message.payload.member.id id roster.snapshot.members

on_all-after_all_from :
    (ms : List ContractToClient) (roster : PresenceRoster)
    → present (on_all ms roster).snapshot.members ≡ after_all ms (present roster.snapshot.members)
unfolding on_all
on_all-after_all_from [] roster = refl
on_all-after_all_from (m ∷ ms) roster =
    on_all-after_all_from ms (on m roster) ∙ ap (after_all ms) (fun_ext (on-after m roster))

-- After any messages in any order the roster shows, for each id, the member that the last message
-- about that id left there: the list refines the map from ids to members.
pub on_all-after_all :
    (ms : List ContractToClient)
    → present (on_all ms create_presence_roster).snapshot.members ≡ after_all ms (λ id. none)
on_all-after_all ms = on_all-after_all_from ms create_presence_roster
