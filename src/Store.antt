-- ===== src/Store.antt =====
-- The subscribe, getSnapshot and publish part that every `core.ts` repeats
-- (ui/notification/core.ts and its siblings). A listener is its identity.
use chanx_kit.Prelude.{List, [], any, eqb, filter, if◌then◌else◌, map, not, ℕ, ◌++◌, ◌∷◌}

abbrev pub Listener : Type 0
Listener = ℕ

-- `told` records each call of a listener with the snapshot that it can read, oldest first.
pub record Store (S : Type 0) : Type 0 where
  pub listeners : List Listener
  pub snapshot : S
  pub told : List (Listener × S)

module _ {S : Type 0} where
  abbrev pub create : S → Store S
  create s = record { listeners = []; snapshot = s; told = [] }

  -- A JavaScript `Set` keeps the order of insertion and one copy.
  unfoldable pub subscribe : Listener → Store S → Store S
  subscribe l s =
      if any (eqb l) s.listeners then s else record s { listeners = s.listeners ++ l ∷ [] }

  -- The function that `subscribe` returns.
  unfoldable pub unsubscribe : Listener → Store S → Store S
  unsubscribe l s = record s { listeners = filter (λ k. not (eqb l k)) s.listeners }

  abbrev pub publish : S → Store S → Store S
  publish next s = record s { snapshot = next; told = s.told ++ map (λ l. (l, next)) s.listeners }
