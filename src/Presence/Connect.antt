-- ===== src/Presence/Connect.antt =====
-- `connectPresence` of ui/presence/core.ts: a roster with the topic controller of its topic.
use chanx_kit.Controller.{Call, controller_start, controller_stop, controller_send}
use chanx_kit.Presence.Contract.{ContractToClient, ContractToServer}
use chanx_kit.Presence.Roster.{PresenceRoster, create_presence_roster, presence_request}
use chanx_kit.Presence.Roster.{on as on_roster}
use chanx_kit.Prelude.{List, [], ◌++◌, ◌∷◌}

pub record Connected : Type 0 where
  pub roster : PresenceRoster
  pub calls : List (Call ContractToServer)

abbrev pub connect_presence : Connected
connect_presence = record { roster = create_presence_roster; calls = [] }

unfoldable pub receive : ContractToClient → Connected → Connected
receive message c = record c { roster = on_roster message c.roster }

abbrev pub refresh : Connected → Connected
refresh c = record c { calls = c.calls ++ controller_send presence_request ∷ [] }

abbrev pub start : Connected → Connected
start c = record c { calls = c.calls ++ controller_start ∷ [] }

abbrev pub stop : Connected → Connected
stop c = record c { calls = c.calls ++ controller_stop ∷ [] }
