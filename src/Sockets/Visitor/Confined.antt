-- ===== src/Sockets/Visitor/Confined.antt =====
-- api/src/io/visitor-namespace.ts: a visitor stays with the own chats and the own tenant.
use livechat.Prelude.{ℕ, ◌*◌, String, sym, subst, none}
use livechat.Prelude.Action.{modify, ◌>>◌}
use livechat.Shared.{ChatInitiatedBy, MessageSenderKind}
use livechat.Models.{Chat, ChatMessage}
use livechat.Chat.{ChatCaller, get_by_id, send_message, end_chat, SendMessageParams, EndChatParams}
use livechat.Chat.Lifecycle.{sends, ends}
use livechat.Chat.Owned.{
  Owned, Step-Owned, get_by_id-keeps, get_by_id-owned, end_chat-owned, send_message-Owned,
}
use livechat.Presence.{mark_visitor_present, remove_visitor}
use livechat.Sockets.{
  staff_ns, visitor_ns, chat_room, tenant_room, visitor_room, Event, Io, join, emit_both,
  emit_watching, on_redis,
}
use livechat.Sockets.Visitor.{
  VisitorSocketData, VisitorEvent, chat_join, chat_end, page_changed, chat_message, chat_typing,
  disconnect, join_chat, send, end_, on_visitor_connection, on_visitor_event,
}
use livechat.Sockets.Rooms.{Home, visitor_home, IsConfined}
use livechat.Sockets.Confined.{
  join-IsConfined, emit_both-IsConfined, emit_watching-IsConfined, guard-IsConfined,
  on_chats-IsConfined, on_chats-read, typing-IsConfined,
}

module _ (now : ℕ) (data_ : VisitorSocketData) where
  home : Home
  home = visitor_home data_

  caller : ChatCaller
  caller = ChatCaller.visitor data_.visitor_session_id

  join_chat-IsConfined :
      (id : String) (io : Io) → IsConfined home io → IsConfined home (join_chat now data_ id io).1
  unfolding join_chat home caller
  join_chat-IsConfined id io c =
      on_chats-read home (get_by_id id caller)
        (λ chat.
          modify (join (chat_room id)) >> modify (emit_watching data_.tenant_id (requested chat)))
        io (get_by_id-keeps id caller io.store)
        (λ chat made. emit_watching-IsConfined home (requested chat) (join (chat_room id) io) (
          join-IsConfined home (chat_room id) io (get_by_id-owned caller io.store id chat made).1
            c))
        c
    where
      requested : Chat → Event
      requested chat = Event.chat_requested chat.id data_.tenant_id chat.customer_name chat.status

  send-IsConfined :
      (message_id id body : String) (io : Io)
      → IsConfined home io
      → IsConfined home (send now data_ message_id id body io).1
  unfolding send home caller
  send-IsConfined message_id id body io c =
      let st = sends io.store (now * 1000) message_id params caller in
      on_chats-IsConfined home (send_message (now * 1000) message_id params caller)
        (λ msg. modify (λ after.
          emit_watching data_.tenant_id (said msg)
            (emit_both visitor_ns staff_ns (chat_room id) (said msg) after)))
        io st
        (λ msg made c1.
          let after : Io = record io {
            store = (send_message (now * 1000) message_id params caller io.store).1;
          } in
          emit_watching-IsConfined home (said msg)
            (emit_both visitor_ns staff_ns (chat_room id) (said msg) after)
            (emit_both-IsConfined home visitor_ns staff_ns id (said msg) after
              (Step-Owned caller id st
                (send_message-Owned caller io.store (now * 1000) message_id params msg made))
              c1))
        c
    where
      params : SendMessageParams
      params = record {
        chat_id = id;
        sender_kind = MessageSenderKind.visitor;
        sender_user_id = none;
        body = body;
      }

      said : ChatMessage → Event
      said msg = Event.chat_message (record {
        chat_id = id;
        message_id = msg.id;
        sender_kind = MessageSenderKind.visitor;
        sender_user_id = none;
        body = msg.body;
        delivered_at = msg.delivered_at;
      })

  end_-IsConfined :
      (id : String) (io : Io) → IsConfined home io → IsConfined home (end_ now data_ id io).1
  unfolding end_ home caller
  end_-IsConfined id io c =
      let params : EndChatParams = record { chat_id = id; ended_by = ChatInitiatedBy.customer } in
      let st = ends io.store (now * 1000) params caller in
      on_chats-IsConfined home (end_chat (now * 1000) params caller)
        (λ chat. modify (
          emit_both visitor_ns staff_ns (chat_room chat.id)
            (Event.chat_ended chat.id ChatInitiatedBy.customer)))
        io st
        (λ chat made c1.
          let owned = end_chat-owned caller io.store (now * 1000) params chat made in
          let after : Io = record io { store = (end_chat (now * 1000) params caller io.store).1 } in
          emit_both-IsConfined home visitor_ns staff_ns chat.id
            (Event.chat_ended chat.id ChatInitiatedBy.customer) after
            (subst (Owned caller after.store) (sym owned.0) (Step-Owned caller id st owned.1)) c1)
        c

  -- Every event of a visitor.
  pub on_visitor_event-IsConfined :
      (fresh_id : String) (e : VisitorEvent) (io : Io)
      → IsConfined (visitor_home data_) io
      → IsConfined (visitor_home data_) (on_visitor_event now data_ fresh_id e io)
  unfolding on_visitor_event home
  on_visitor_event-IsConfined fresh_id (chat_join id) io c =
      guard-IsConfined home "chat:join" (join_chat now data_ id) io (join_chat-IsConfined id io c)
  on_visitor_event-IsConfined fresh_id (chat_message id body) io c =
      guard-IsConfined home "chat:message" (send now data_ fresh_id id body) io
        (send-IsConfined fresh_id id body io c)
  on_visitor_event-IsConfined fresh_id (chat_typing id is_typing) io c =
      typing-IsConfined home visitor_ns staff_ns id
        (Event.chat_typing id MessageSenderKind.visitor is_typing) io c
  on_visitor_event-IsConfined fresh_id (chat_end id) io c =
      guard-IsConfined home "chat:end" (end_ now data_ id) io (end_-IsConfined id io c)
  on_visitor_event-IsConfined fresh_id (page_changed url) io c =
      emit_watching-IsConfined home (Event.visitor_page_changed data_.visitor_session_id url) io c
  on_visitor_event-IsConfined fresh_id disconnect io c =
      emit_watching-IsConfined home (Event.visitor_left data_.tenant_id data_.visitor_session_id)
        (on_redis (remove_visitor data_.tenant_id data_.visitor_session_id) io) c

  pub on_visitor_connection-IsConfined :
      (io : Io)
      → IsConfined (visitor_home data_) io
      → IsConfined (visitor_home data_) (on_visitor_connection now data_ io)
  unfolding on_visitor_connection home
  on_visitor_connection-IsConfined io c =
      let inside =
        join (tenant_room data_.tenant_id) (join (visitor_room data_.visitor_session_id) io) in
      emit_watching-IsConfined home (Event.visitor_joined data_.tenant_id data_.visitor_session_id)
        (on_redis (mark_visitor_present now data_.tenant_id data_.visitor_session_id) inside)
        (join-IsConfined home (tenant_room data_.tenant_id)
          (join (visitor_room data_.visitor_session_id) io) tt
          (join-IsConfined home (visitor_room data_.visitor_session_id) io tt c))
