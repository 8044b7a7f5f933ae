-- ===== src/Chat/Log/Backlog.antt =====
-- A replayed backlog and a repeated message.
use chanx_kit.Chat.Contract.{ChatBacklogPayload, ChatEntry}
use chanx_kit.Chat.Log.{
  ChatLog, chat_backlog, chat_message, has_id, is_live, is_named, newest, sent,
}
use chanx_kit.Prelude.{
  List, String, [], any, filter, gtb, opt_eq, refl, some, true, ◌&&◌, ◌∷◌, ◌≡◌, All, All-mono,
  any-append, arith, false, filter-append, filter-filter, opt_eq_iff, opt_eq_refl,
}

-- What the backlog lists is known to it.
pub known : (entries : List ChatEntry) → All (λ e. has_id e.id entries ≡ true) entries
known [] = tt
known (e ∷ es) = (
  rw opt_eq_refl,
  All-mono (λ x. has_id x.id es ≡ true) (λ x. has_id x.id (e ∷ es) ≡ true) (λ x h. ground arith) es
      (known es),
)

filter-is_live_known :
    (backlog entries : List ChatEntry)
    → All (λ e. has_id e.id backlog ≡ true) entries
    → filter (is_live backlog) entries ≡ []
filter-is_live_known backlog [] h = refl
filter-is_live_known backlog (e ∷ es) h = ground (arith, filter-is_live_known backlog es h.1)

-- A backlog that is replayed, as it is after each reconnect, changes nothing.
pub chat_backlog_twice :
    (payload : ChatBacklogPayload) (log : ChatLog)
    → (chat_backlog payload (chat_backlog payload log)).snapshot
      ≡ (chat_backlog payload log).snapshot
unfolding chat_backlog
chat_backlog_twice payload log =
    let b = payload.entries in rw (filter-append, filter-is_live_known b b (known b), filter-filter)

has_id-live :
    (b es : List ChatEntry) (id : String)
    → has_id (some id) b ≡ false
    → any (λ e. opt_eq e.id (some id) && gtb (sent e) (newest b)) es ≡ true
    → has_id (some id) (filter (is_live b) es) ≡ true
has_id-live b [] id n h = h
has_id-live b (e ∷ es) id n h = ground (arith, has_id-live b es id, opt_eq_iff e.id (some id))

-- A backlog loses no message that came live after it was taken: a named entry newer than the
-- backlog's last is still in the log, whether the backlog knows it or not.
pub has_id-chat_backlog :
    (payload : ChatBacklogPayload) (log : ChatLog) (id : String)
    → any (λ e. opt_eq e.id (some id) && gtb (sent e) (newest payload.entries)) log.snapshot.entries
      ≡ true
    → has_id (some id) (chat_backlog payload log).snapshot.entries ≡ true
unfolding chat_backlog
has_id-chat_backlog payload log id h =
    let b = payload.entries in
    let live = filter (is_live b) log.snapshot.entries in
    ground
      (arith, any-append (λ e. opt_eq e.id (some id)) b live, has_id-live b log.snapshot.entries id)

-- A message that arrives again, with the same id, is shown once.
pub chat_message_twice :
    (entry again : ChatEntry) (log : ChatLog)
    → is_named entry ≡ true
    → again.id ≡ entry.id
    → (chat_message again (chat_message entry log)).snapshot ≡ (chat_message entry log).snapshot
unfolding chat_message
chat_message_twice entry again log n e = ground (
  arith,
  any-append (λ x. opt_eq x.id entry.id) log.snapshot.entries (entry ∷ []),
  opt_eq_refl entry.id,
)
