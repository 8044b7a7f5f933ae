-- ===== src/Presence/Roster/Tests.antt =====
-- Runs of the roster, after ui/presence/tests/core.test.ts.
use chanx_kit.Presence.Contract.{ContractToClient, PresenceMember}
use chanx_kit.Presence.Roster.{create_presence_roster, on, on_all}
use chanx_kit.Presence.Roster.Refine.{after_all, on_all-after_all, present}
use chanx_kit.Prelude.{List, String, [], absent, none, refl, ◌==◌, ◌∷◌, ◌≡◌}

abbrev member : String → PresenceMember
member id = record { id = id; name = absent; data_value = none }

abbrev join : String → ContractToClient
join id =
    ContractToClient.presence_join (record { payload = record { scope = "s"; member = member id } })

abbrev leave : String → ContractToClient
leave id =
    ContractToClient.presence_leave
      (record { payload = record { scope = "s"; member = member id } })

abbrev state : List PresenceMember → ContractToClient
state members =
    ContractToClient.presence_state (record { payload = record { scope = "s"; members = members } })

abbrev messages : List ContractToClient
messages = state (member "a" ∷ member "b" ∷ []) ∷ join "c" ∷ join "a" ∷ leave "b" ∷ []

messages_members :
    (on_all messages create_presence_roster).snapshot.members ≡ member "c" ∷ member "a" ∷ []
unfolding on_all on ◌==◌
messages_members = refl

on_all-after_all_example :
    present (on_all messages create_presence_roster).snapshot.members
    ≡ after_all messages (λ id. none)
on_all-after_all_example = on_all-after_all messages
