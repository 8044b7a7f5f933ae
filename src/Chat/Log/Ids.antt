-- ===== src/Chat/Log/Ids.antt =====
-- No two entries of the log have one id, the empty id and the missing id left aside.
use chanx_kit.Chat.Contract
use chanx_kit.Chat.Contract.{ChatEntry, ContractToClient}
use chanx_kit.Chat.Log.{ChatLog, has_id, is_live, is_named, on, on_all}
use chanx_kit.Chat.Log.Backlog.{known}
use chanx_kit.Prelude.{
  All, All-mono, Bool, Bool-cases, List, Option, String, [], any-append, arith, false, filter, inl,
  inr, opt_eq, opt_eq_iff, refl, true, ◌&&◌, ◌++◌, ◌∷◌, ◌≡◌,
}

-- Another entry of the list has this one's id.
abbrev repeats : ChatEntry → List ChatEntry → Bool
repeats e es = is_named e && has_id e.id es

abbrev pub IsDistinct : List ChatEntry → Type 0
IsDistinct [] = Unit
IsDistinct (e ∷ es) = (repeats e es ≡ false) × IsDistinct es

has_id-filter-false :
    (p : ChatEntry → Bool) (id : Option String) (es : List ChatEntry)
    → has_id id es ≡ false
    → has_id id (filter p es) ≡ false
has_id-filter-false p id [] h = h
has_id-filter-false p id (e ∷ es) h = ground (arith, has_id-filter-false p id es)

IsDistinct-filter :
    (p : ChatEntry → Bool) (es : List ChatEntry) → IsDistinct es → IsDistinct (filter p es)
IsDistinct-filter p [] d = tt
IsDistinct-filter p (e ∷ es) d =
    ground (arith, IsDistinct-filter p es d.1, has_id-filter-false p e.id es)

-- What stays live has no id of the backlog.
has_id-filter-is_live :
    (b es : List ChatEntry) (e : ChatEntry)
    → has_id e.id b ≡ true
    → has_id e.id (filter (is_live b) es) ≡ false
has_id-filter-is_live b [] e h = refl
has_id-filter-is_live b (x ∷ es) e h =
    ground (arith, has_id-filter-is_live b es e h, opt_eq_iff x.id e.id)

IsDistinct-append :
    (xs ys : List ChatEntry)
    → IsDistinct xs
    → IsDistinct ys
    → All (λ x. has_id x.id ys ≡ false) xs
    → IsDistinct (xs ++ ys)
IsDistinct-append [] ys d c h = c
IsDistinct-append (x ∷ xs) ys d c h =
    ground (arith, IsDistinct-append xs ys d.1 c h.1, any-append (λ e. opt_eq e.id x.id) xs ys)

IsDistinct-snoc :
    (es : List ChatEntry) (x : ChatEntry)
    → IsDistinct es
    → repeats x es ≡ false
    → IsDistinct (es ++ x ∷ [])
IsDistinct-snoc [] x d h = (ground arith, tt)
IsDistinct-snoc (e ∷ es) x d h = ground (
  arith,
  IsDistinct-snoc es x d.1,
  any-append (λ y. opt_eq y.id e.id) es (x ∷ []),
  opt_eq_iff x.id e.id,
  opt_eq_iff e.id x.id,
)

-- What the server promises of a backlog: it lists no id twice.
abbrev pub IsFair : ContractToClient → Type 0
IsFair (Contract.ContractToClient.chat_backlog message) = IsDistinct message.payload.entries
IsFair (Contract.ContractToClient.chat_message message) = Unit

on-IsDistinct :
    (m : ContractToClient) (log : ChatLog)
    → IsFair m
    → IsDistinct log.snapshot.entries
    → IsDistinct (on m log).snapshot.entries
unfolding on
on-IsDistinct (Contract.ContractToClient.chat_backlog message) log f d =
    let b = message.payload.entries in
    let es = log.snapshot.entries in
    IsDistinct-append b (filter (is_live b) es) f (IsDistinct-filter (is_live b) es d) (
      All-mono (λ x. has_id x.id b ≡ true) (λ x. has_id x.id (filter (is_live b) es) ≡ false)
        (λ x h. has_id-filter-is_live b es x h) b (known b))
on-IsDistinct (Contract.ContractToClient.chat_message message) log f d =
    elim (Bool-cases (repeats message.payload log.snapshot.entries)) [
      | inl old ↦ rw old d
      | inr new ↦ rw new (IsDistinct-snoc log.snapshot.entries message.payload d new)
    ]

-- If no backlog lists an id twice, then after any messages in any order the log shows no id twice.
pub on_all-IsDistinct :
    (ms : List ContractToClient) (log : ChatLog)
    → All IsFair ms
    → IsDistinct log.snapshot.entries
    → IsDistinct (on_all ms log).snapshot.entries
unfolding on_all
on_all-IsDistinct [] log f d = d
on_all-IsDistinct (m ∷ ms) log f d = on_all-IsDistinct ms (on m log) f.1 (on-IsDistinct m log f.0 d)
