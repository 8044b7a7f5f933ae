-- ===== src/Presence/Roster.antt =====
-- `createPresenceRoster` of ui/presence/core.ts: a store of the members, changed by the messages of
-- the topic.
pub mod Refine
pub mod Distinctness
mod Tests
use chanx_kit.Presence.Contract.{ContractToClient, ContractToServer, PresenceMember}
use chanx_kit.Prelude.{List, [], filter, not, null, ◌++◌, ◌==◌, ◌∷◌}
use chanx_kit.Store.{Store, create, publish}

pub record PresenceSnapshot : Type 0 where
  pub members : List PresenceMember

abbrev pub PresenceRoster : Type 0
PresenceRoster = Store PresenceSnapshot

abbrev pub create_presence_roster : PresenceRoster
create_presence_roster = create (record { members = [] })

-- `snapshot.members.filter((m) => m.id !== member.id)`
abbrev pub others : PresenceMember → PresenceRoster → List PresenceMember
others member roster = filter (λ m. not (m.id == member.id)) roster.snapshot.members

-- The handlers by action. `presence_state` is sent on every subscribe, and replaces the list.
unfoldable pub on : ContractToClient → PresenceRoster → PresenceRoster
on (ContractToClient.presence_state message) roster =
    publish (record { members = message.payload.members }) roster
on (ContractToClient.presence_join message) roster =
    publish
      (record { members = others message.payload.member roster ++ message.payload.member ∷ [] })
      roster
on (ContractToClient.presence_leave message) roster =
    publish (record { members = others message.payload.member roster }) roster

-- The messages of a connection, in order.
unfoldable pub on_all : List ContractToClient → PresenceRoster → PresenceRoster
on_all [] roster = roster
on_all (m ∷ ms) roster = on_all ms (on m roster)

-- Asks for the roster again, without a reconnect.
abbrev pub presence_request : ContractToServer
presence_request = ContractToServer.presence_request (record { payload = null })
