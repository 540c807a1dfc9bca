-- ===== src/Sockets/Staff/Confined.antt =====
-- api/src/io/staff-namespace.ts: a staff member of one tenant stays within it.
use livechat.Prelude.{
  ◌*◌, String, ◌≡◌, refl, sym, subst, inl, inr, Bool, none, some, [], ◌∷◌, Bool-cases,
}
use livechat.Prelude.Action.{◌>>◌, modify}
use livechat.Auth.{Role}
use livechat.Models.{Chat, ChatMessage, find_chat}
use livechat.Chat.{
  ChatCaller, assign, get_by_id, send_message, end_chat, initiate_by_support, SendMessageParams,
  EndChatParams, SupportInitiateParams,
}
use livechat.Shared.{ChatInitiatedBy, MessageSenderKind}
use livechat.Chat.Lifecycle.{sends, ends, assigns, support_starts}
use livechat.Chat.Owned.{
  Owned, Step-Owned, get_by_id-keeps, get_by_id-owned, assign-owned, end_chat-owned,
  send_message-Owned, initiate_by_support-Owned,
}
use livechat.Presence.{Redis, StaffStatus, set_availability, restore_on_connect}
use livechat.Sockets.{
  staff_ns, visitor_ns, user_room, staff_room, chat_room, support_availability_changed, tenant_room,
  visitor_room, Event, Emission, to_rooms, Io, join, emit, emit_both, emit_watching,
}
use livechat.Sockets.Availability.{
  Clock, compute_tenant_availability, emit_availability_changed, broadcast_tenant_availability,
}
use livechat.Sockets.Staff.{
  StaffEvent, chat_accept, chat_join, chat_end, chat_message, chat_typing, chat_initiate,
  availability_set, availability_heartbeat, accept_chat, join_chat, send, end_, initiate,
  initiate_in, set_status, change_presence, echo, join_own_rooms, on_staff_connection,
  on_staff_event, is_staff, now_ms,
}
use livechat.Sockets.Rooms.{Home, staff_home, staff_data, IsConfined}
use livechat.Sockets.Confined.{
  emit-IsConfined, join-IsConfined, emit_both-IsConfined, emit_watching-IsConfined,
  guard-IsConfined, on_chats-IsConfined, on_chats-read, typing-IsConfined,
}

module _ (clock : Clock) (user_id : String) (role : Role) (tenant_id : String) where
  home : Home
  home = staff_home user_id role tenant_id

  caller : ChatCaller
  caller = ChatCaller.staff (some tenant_id)

  accept_chat-IsConfined :
      (id : String) (io : Io)
      → IsConfined home io
      → IsConfined home (accept_chat clock (staff_data user_id role tenant_id) id io).1
  unfolding accept_chat home caller
  accept_chat-IsConfined id io c =
      let st = assigns io.store id user_id caller in
      on_chats-IsConfined home (assign id user_id caller)
        (λ chat.
          modify (join (chat_room chat.id))
          >> modify (
              emit_both staff_ns visitor_ns (chat_room chat.id)
                (Event.chat_assigned chat.id user_id)))
        io st
        (λ chat made c1.
          let owned = assign-owned caller io.store id user_id chat made in
          let after : Io = record io { store = (assign id user_id caller io.store).1 } in
          let mine =
            subst (Owned caller after.store) (sym owned.0) (Step-Owned caller id st owned.1) in
          emit_both-IsConfined home staff_ns visitor_ns chat.id
            (Event.chat_assigned chat.id user_id) (join (chat_room chat.id) after) mine
            (join-IsConfined home (chat_room chat.id) after mine c1))
        c

  join_chat-IsConfined :
      (id : String) (io : Io)
      → IsConfined home io
      → IsConfined home (join_chat clock (staff_data user_id role tenant_id) id io).1
  unfolding join_chat home caller
  join_chat-IsConfined id io c =
      on_chats-read home (get_by_id id caller) (λ chat. modify (join (chat_room chat.id))) io
        (get_by_id-keeps id caller io.store)
        (λ chat made.
          let owned = get_by_id-owned caller io.store id chat made in
          join-IsConfined home (chat_room chat.id) io
            (subst (Owned caller io.store) (sym owned.0) owned.1) c)
        c

  send-IsConfined :
      (message_id id body : String) (io : Io)
      → IsConfined home io
      → IsConfined home (send clock (staff_data user_id role tenant_id) message_id id body io).1
  unfolding send home caller
  send-IsConfined message_id id body io c =
      let st =
        sends io.store (now_ms clock (staff_data user_id role tenant_id)) message_id params
          caller in
      on_chats-IsConfined home (send_message (clock.now * 1000) message_id params caller)
        (λ msg. modify (emit_both staff_ns visitor_ns (chat_room id) (said msg))) io st
        (λ msg made c1.
          emit_both-IsConfined home staff_ns visitor_ns id (said msg)
            (record io {
              store = (send_message (clock.now * 1000) message_id params caller io.store).1;
            })
            (Step-Owned caller id st
              (send_message-Owned caller io.store (clock.now * 1000) message_id params msg made))
            c1)
        c
    where
      params : SendMessageParams
      params = record {
        chat_id = id;
        sender_kind = MessageSenderKind.user;
        sender_user_id = some user_id;
        body = body;
      }

      said : ChatMessage → Event
      said msg = Event.chat_message (record {
        chat_id = id;
        message_id = msg.id;
        sender_kind = MessageSenderKind.user;
        sender_user_id = some user_id;
        body = msg.body;
        delivered_at = msg.delivered_at;
      })

  end_-IsConfined :
      (id : String) (io : Io)
      → IsConfined home io
      → IsConfined home (end_ clock (staff_data user_id role tenant_id) id io).1
  unfolding end_ home caller
  end_-IsConfined id io c =
      let params : EndChatParams = record { chat_id = id; ended_by = ChatInitiatedBy.support } in
      let st = ends io.store (clock.now * 1000) params caller in
      on_chats-IsConfined home (end_chat (clock.now * 1000) params caller)
        (λ chat. modify (
          emit_both staff_ns visitor_ns (chat_room chat.id)
            (Event.chat_ended chat.id ChatInitiatedBy.support)))
        io st
        (λ chat made c1.
          let owned = end_chat-owned caller io.store (clock.now * 1000) params chat made in
          let after : Io = record io {
            store = (end_chat (clock.now * 1000) params caller io.store).1;
          } in
          emit_both-IsConfined home staff_ns visitor_ns chat.id
            (Event.chat_ended chat.id ChatInitiatedBy.support) after
            (subst (Owned caller after.store) (sym owned.0) (Step-Owned caller id st owned.1)) c1)
        c

  initiate-IsConfined :
      (chat_id visitor_session_id : String) (io : Io)
      → find_chat chat_id io.store ≡ none
      → IsConfined home io
      → IsConfined home
          (initiate clock (staff_data user_id role tenant_id) chat_id visitor_session_id io).1
  unfolding initiate initiate_in home
  initiate-IsConfined chat_id visitor_session_id io fresh c =
      let now = clock.now * 1000 in
      let st = support_starts io.store now chat_id params fresh in
      on_chats-IsConfined home (initiate_by_support now chat_id params)
        (λ chat.
          modify (join (chat_room chat.id))
          >> modify (emit_watching chat.tenant_id (requested chat))
          >> modify (emit (invited chat)))
        io st
        (λ chat made c1.
          let after : Io = record io {
            store = (initiate_by_support now chat_id params io.store).1;
          } in
          let (named, own, visitor, mine, theirs) =
            initiate_by_support-Owned (ChatCaller.staff (some tenant_id)) io.store now chat_id
              params chat fresh made in
          let joined = join (chat_room chat.id) after in
          emit-IsConfined home (invited chat) (emit_watching chat.tenant_id (requested chat) joined)
            ((chat_id, mine, theirs), tt)
            (subst (λ t. IsConfined home (emit_watching t (requested chat) joined)) (sym own)
              (emit_watching-IsConfined home (requested chat) joined (
                join-IsConfined home (chat_room chat.id) after
                  (subst (Owned (ChatCaller.staff (some tenant_id)) after.store) (sym named) mine)
                  c1))))
        c
    where
      params : SupportInitiateParams
      params = record {
        tenant_id = tenant_id;
        visitor_session_id = visitor_session_id;
        support_user_id = user_id;
      }

      requested : Chat → Event
      requested chat = Event.chat_requested chat.id chat.tenant_id chat.customer_name chat.status

      invited : Chat → Emission
      invited chat =
          to_rooms visitor_ns (visitor_room visitor_session_id ∷ [])
            (Event.support_initiated chat.id)

  echo-IsConfined :
      (status : StaffStatus) (io : Io)
      → IsConfined home io
      → IsConfined home (echo clock (staff_data user_id role tenant_id) (status, io))
  unfolding echo home
  echo-IsConfined status io c =
      emit-IsConfined home
        (to_rooms staff_ns (user_room user_id ∷ []) (Event.availability_self status)) io (refl, tt)
        c

  told-IsConfined :
      (available : Bool) (io : Io)
      → IsConfined home io
      → IsConfined home (emit_availability_changed clock tenant_id available io)
  unfolding home
  told-IsConfined available io c =
      let e = support_availability_changed available in
      emit-IsConfined home (to_rooms staff_ns (tenant_room tenant_id ∷ []) e)
        (emit (to_rooms visitor_ns (tenant_room tenant_id ∷ []) e) io) (refl, tt)
        (emit-IsConfined home (to_rooms visitor_ns (tenant_room tenant_id ∷ []) e) io
          ((refl, tt), tt) c)

  broadcast-IsConfined :
      (io : Io)
      → IsConfined home io
      → IsConfined home (broadcast_tenant_availability clock tenant_id io)
  unfolding broadcast_tenant_availability
  broadcast-IsConfined io c =
      let (available, redis) = compute_tenant_availability clock tenant_id io.redis in
      told-IsConfined available (record io { redis = redis }) c

  -- A change of presence tells the own tenant and echoes to the user.
  presence-IsConfined :
      (apply : Redis → StaffStatus × Redis) (io : Io)
      → IsConfined home io
      → IsConfined home (
          echo clock
            (staff_data user_id role tenant_id)
            (change_presence clock (staff_data user_id role tenant_id) (some tenant_id) apply io))
  unfolding change_presence
  presence-IsConfined apply io c =
      echo-IsConfined (apply io.redis).0
        (broadcast_tenant_availability clock tenant_id (record io { redis = (apply io.redis).1 }))
        (broadcast-IsConfined (record io { redis = (apply io.redis).1 }) c)

  -- Every event of a staff member of a tenant.
  pub on_staff_event-IsConfined :
      (fresh_id : String) (e : StaffEvent) (io : Io)
      → find_chat fresh_id io.store ≡ none
      → IsConfined (staff_home user_id role tenant_id) io
      → IsConfined
          (staff_home user_id role tenant_id)
          (on_staff_event clock (staff_data user_id role tenant_id) fresh_id e io)
  unfolding on_staff_event home set_status
  on_staff_event-IsConfined fresh_id (chat_accept id) io fresh c =
      guard-IsConfined home "chat:accept" (accept_chat clock (staff_data user_id role tenant_id) id)
        io (accept_chat-IsConfined id io c)
  on_staff_event-IsConfined fresh_id (chat_join id) io fresh c =
      guard-IsConfined home "chat:join" (join_chat clock (staff_data user_id role tenant_id) id) io
        (join_chat-IsConfined id io c)
  on_staff_event-IsConfined fresh_id (chat_message id body) io fresh c =
      guard-IsConfined home "chat:message"
        (send clock (staff_data user_id role tenant_id) fresh_id id body) io
        (send-IsConfined fresh_id id body io c)
  on_staff_event-IsConfined fresh_id (chat_typing id is_typing) io fresh c =
      typing-IsConfined home staff_ns visitor_ns id
        (Event.chat_typing id MessageSenderKind.user is_typing) io c
  on_staff_event-IsConfined fresh_id (chat_end id) io fresh c =
      guard-IsConfined home "chat:end" (end_ clock (staff_data user_id role tenant_id) id) io
        (end_-IsConfined id io c)
  on_staff_event-IsConfined fresh_id (chat_initiate v) io fresh c =
      guard-IsConfined home "chat:initiate"
        (initiate clock (staff_data user_id role tenant_id) fresh_id v) io
        (initiate-IsConfined fresh_id v io fresh c)
  on_staff_event-IsConfined fresh_id (availability_set none) io fresh c =
      elim (Bool-cases (is_staff (staff_data user_id role tenant_id))) [
        | inl e ↦ rw e c
        | inr e ↦ rw e c
      ]
  on_staff_event-IsConfined fresh_id (availability_set (some status)) io fresh c =
      elim (Bool-cases (is_staff (staff_data user_id role tenant_id))) [
        | inl e ↦ rw e (
            presence-IsConfined
              (λ r. (status, set_availability clock.now user_id tenant_id status r)) io c)
        | inr e ↦ rw e c
      ]
  on_staff_event-IsConfined fresh_id availability_heartbeat io fresh c =
      elim (Bool-cases (is_staff (staff_data user_id role tenant_id))) [
        | inl e ↦ rw e c
        | inr e ↦ rw e c
      ]

  pub on_staff_connection-IsConfined :
      (io : Io)
      → IsConfined (staff_home user_id role tenant_id) io
      → IsConfined
          (staff_home user_id role tenant_id)
          (on_staff_connection clock (staff_data user_id role tenant_id) io)
  unfolding on_staff_connection join_own_rooms home
  on_staff_connection-IsConfined io c =
      let inside =
        join-IsConfined home (tenant_room tenant_id) (join staff_room (join (user_room user_id) io))
          tt
          (join-IsConfined home staff_room (join (user_room user_id) io) tt
            (join-IsConfined home (user_room user_id) io tt c)) in
      elim (Bool-cases (is_staff (staff_data user_id role tenant_id))) [
        | inl e ↦ rw e (
            presence-IsConfined (restore_on_connect clock.now user_id tenant_id)
              (join (tenant_room tenant_id) (join staff_room (join (user_room user_id) io))) inside)
        | inr e ↦ rw e inside
      ]
