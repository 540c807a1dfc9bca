-- ===== src/Sockets/Staff/Refused.antt =====
-- api/src/io/staff-namespace.ts: events that name a chat of another tenant.
use livechat.Prelude.{◌*◌, String, ◌≡◌, refl, Bool, false, some}
use livechat.Prelude.Action.{modify, ◌>>◌}
use livechat.Shared.{ChatInitiatedBy, MessageSenderKind}
use livechat.Models.{Chat, find_chat}
use livechat.Chat.{
  ChatCaller, assign, get_by_id, send_message, end_chat, SendMessageParams, EndChatParams,
  err_chat_forbidden,
}
use livechat.Chat.Access.{Owns, foreign_refused}
use livechat.Sockets.{
  staff_ns, visitor_ns, chat_room, Event, to_socket, Io, has_room, join, emit, emit_both,
}
use livechat.Sockets.Availability.{Clock}
use livechat.Sockets.Staff.{
  StaffSocketData, chat_accept, chat_join, chat_message, chat_end, chat_typing, accept_chat,
  join_chat, send, end_, on_staff_event,
}
use livechat.Sockets.Refused.{guard-refused}

-- The socket alone is told that its event is refused.
abbrev pub told : String → Io → Io
told event = emit (to_socket (Event.chat_error event "Access denied to this chat"))

module _ (clock : Clock) (data_ : StaffSocketData) (fresh_id chat_id body : String) (chat : Chat)
    (io : Io) where
  -- An event about a chat that the staff member may not touch changes no table, no presence and no
  -- room and reaches nobody else: the socket is told `chat:error`, and a typing event from outside
  -- the chat's room is dropped.
  pub on_staff_event-refused :
      find_chat chat_id io.store ≡ some chat
      → ¬ Owns chat (ChatCaller.staff data_.tenant_id)
      → has_room (chat_room chat_id) io.rooms ≡ false
      → (on_staff_event clock data_ fresh_id (chat_accept chat_id) io ≡ told "chat:accept" io)
        × (on_staff_event clock data_ fresh_id (chat_join chat_id) io ≡ told "chat:join" io)
        × (on_staff_event clock data_ fresh_id (chat_message chat_id body) io
            ≡ told "chat:message" io)
        × (on_staff_event clock data_ fresh_id (chat_end chat_id) io ≡ told "chat:end" io)
        × (((is_typing : Bool)
            → on_staff_event clock data_ fresh_id (chat_typing chat_id is_typing) io ≡ io))
  unfolding on_staff_event accept_chat join_chat send end_
  on_staff_event-refused found foreign outside =
      let caller = ChatCaller.staff data_.tenant_id in
      let (no_send, no_end, no_assign, no_read) =
        foreign_refused chat_id caller io.store chat (clock.now * 1000) fresh_id data_.user_id body
          MessageSenderKind.user (some data_.user_id) ChatInitiatedBy.support found foreign in
      (
        guard-refused "chat:accept" (assign chat_id data_.user_id caller)
            (λ c.
              modify (join (chat_room c.id))
              >> modify (
                  emit_both staff_ns visitor_ns (chat_room c.id)
                    (Event.chat_assigned c.id data_.user_id)))
            io err_chat_forbidden no_assign,
        guard-refused "chat:join" (get_by_id chat_id caller) (λ c. modify (join (chat_room c.id)))
            io err_chat_forbidden no_read,
        guard-refused "chat:message" (send_message (clock.now * 1000) fresh_id sent caller)
            (λ msg. modify (
              emit_both staff_ns visitor_ns (chat_room chat_id) (
                Event.chat_message (record {
                  chat_id = chat_id;
                  message_id = msg.id;
                  sender_kind = MessageSenderKind.user;
                  sender_user_id = some data_.user_id;
                  body = msg.body;
                  delivered_at = msg.delivered_at;
                }))))
            io err_chat_forbidden no_send,
        guard-refused "chat:end" (end_chat (clock.now * 1000) ended caller)
            (λ c. modify (
              emit_both staff_ns visitor_ns (chat_room c.id)
                (Event.chat_ended c.id ChatInitiatedBy.support)))
            io err_chat_forbidden no_end,
        λ is_typing. rw outside refl,
      )
    where
      sent : SendMessageParams
      sent = record {
        chat_id = chat_id;
        sender_kind = MessageSenderKind.user;
        sender_user_id = some data_.user_id;
        body = body;
      }

      ended : EndChatParams
      ended = record { chat_id = chat_id; ended_by = ChatInitiatedBy.support }
