-- ===== src/Presence/Roster/Distinctness.antt =====
-- No member is shown twice.
use chanx_kit.Presence.Contract.{ContractToClient, PresenceMember}
use chanx_kit.Presence.Roster.{PresenceRoster, on, on_all, others}
use chanx_kit.Prelude.{
  All, Distinct, Distinct-filter, Distinct-snoc, List, [], has_key-without, ◌∷◌,
}

abbrev pub IsRoster : List PresenceMember → Type 0
IsRoster = Distinct (λ m. m.id)

-- What the server promises of a `presence_state`: it lists no member twice.
abbrev pub IsFair : ContractToClient → Type 0
IsFair (ContractToClient.presence_state message) = IsRoster message.payload.members
IsFair _ = Unit

on-IsRoster :
    (m : ContractToClient) (roster : PresenceRoster)
    → IsFair m
    → IsRoster roster.snapshot.members
    → IsRoster (on m roster).snapshot.members
unfolding on
on-IsRoster (ContractToClient.presence_state message) roster f d = f
on-IsRoster (ContractToClient.presence_join message) roster f d =
    Distinct-snoc (λ m. m.id) (others message.payload.member roster) message.payload.member
      (Distinct-filter (λ m. m.id) _ roster.snapshot.members d)
      (has_key-without (λ m. m.id) message.payload.member.id roster.snapshot.members)
on-IsRoster (ContractToClient.presence_leave message) roster f d =
    Distinct-filter (λ m. m.id) _ roster.snapshot.members d

-- If the server lists no member twice in a state, then whatever messages come, in any order, the
-- roster shows no member twice, though a member may join again and again.
pub on_all-IsRoster :
    (ms : List ContractToClient) (roster : PresenceRoster)
    → All IsFair ms
    → IsRoster roster.snapshot.members
    → IsRoster (on_all ms roster).snapshot.members
unfolding on_all
on_all-IsRoster [] roster f d = d
on_all-IsRoster (m ∷ ms) roster f d =
    on_all-IsRoster ms (on m roster) f.1 (on-IsRoster m roster f.0 d)
