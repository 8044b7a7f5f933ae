-- ===== src/Chat/Log/Order.antt =====
-- The log is oldest first, by the time that the server sent each entry.
use chanx_kit.Chat.Contract.{ChatBacklogPayload, ChatEntry}
use chanx_kit.Chat.Log.{ChatLog, chat_backlog, is_live, newest, sent}
use chanx_kit.Prelude.{
  All, All-append, All-filter, All-mono, Bool, Bool-cases, List, String, [], arith, false, filter,
  gtb, gtb_irrefl, gtb_trans, inl, inr, ◌++◌, ◌∷◌, ◌≡◌,
}

-- No entry is newer than one behind it.
abbrev pub IsSorted : List ChatEntry → Type 0
IsSorted [] = Unit
IsSorted (e ∷ es) = All (λ x. gtb (sent e) (sent x) ≡ false) es × IsSorted es

not-gtb-newest :
    (a : String) (e : ChatEntry) (es : List ChatEntry)
    → All (λ x. gtb a (sent x) ≡ false) (e ∷ es)
    → gtb a (newest (e ∷ es)) ≡ false
not-gtb-newest a e [] h = h.0
not-gtb-newest a e (f ∷ es) h = not-gtb-newest a f es h.1

-- The last entry of a sorted list is its newest.
All-not-newer : (es : List ChatEntry) → IsSorted es → All (λ x. gtb (sent x) (newest es) ≡ false) es
All-not-newer [] s = tt
All-not-newer (e ∷ []) s = (gtb_irrefl (sent e), tt)
All-not-newer (e ∷ f ∷ es) s = (not-gtb-newest (sent e) f es s.0, All-not-newer (f ∷ es) s.1)

IsSorted-filter :
    (p : ChatEntry → Bool) (es : List ChatEntry) → IsSorted es → IsSorted (filter p es)
IsSorted-filter p [] s = tt
IsSorted-filter p (e ∷ es) s = elim (Bool-cases (p e)) [
  | inl y ↦
      rw y (All-filter (λ x. gtb (sent e) (sent x) ≡ false) p es s.0, IsSorted-filter p es s.1)
  | inr n ↦ rw n (IsSorted-filter p es s.1)
]

IsSorted-append :
    (xs ys : List ChatEntry)
    → IsSorted xs
    → IsSorted ys
    → All (λ x. All (λ y. gtb (sent x) (sent y) ≡ false) ys) xs
    → IsSorted (xs ++ ys)
IsSorted-append [] ys s t c = t
IsSorted-append (x ∷ xs) ys s t c =
    (All-append (λ y. gtb (sent x) (sent y) ≡ false) xs ys s.0 c.0, IsSorted-append xs ys s.1 t c.1)

-- A live entry is newer than any entry that is not newer than the backlog's newest.
live-newer :
    (b es : List ChatEntry) (x : ChatEntry)
    → gtb (sent x) (newest b) ≡ false
    → All (λ y. gtb (sent x) (sent y) ≡ false) (filter (is_live b) es)
live-newer b [] x h = tt
live-newer b (e ∷ es) x h =
    ground (arith, live-newer b es x h, gtb_trans (sent x) (sent e) (newest b))

-- A sorted backlog on a sorted log gives a sorted log.
pub chat_backlog-IsSorted :
    (payload : ChatBacklogPayload) (log : ChatLog)
    → IsSorted payload.entries
    → IsSorted log.snapshot.entries
    → IsSorted (chat_backlog payload log).snapshot.entries
unfolding chat_backlog
chat_backlog-IsSorted payload log s t =
    let b = payload.entries in
    let es = log.snapshot.entries in
    IsSorted-append b (filter (is_live b) es) s (IsSorted-filter (is_live b) es t) (
      All-mono (λ x. gtb (sent x) (newest b) ≡ false)
        (λ x. All (λ y. gtb (sent x) (sent y) ≡ false) (filter (is_live b) es))
        (λ x h. live-newer b es x h) b (All-not-newer b s))
