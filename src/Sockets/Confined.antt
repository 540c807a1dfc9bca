-- ===== src/Sockets/Confined.antt =====
-- api/src/io: what joins and emits keep.
use livechat.ApiError.{Result, ok, err}
use livechat.Prelude.Action.{Action, throw, ◌>>=◌}
use livechat.Prelude.{
  String, ◌≡◌, refl, sym, subst, inl, inr, true, some, List, [], ◌∷◌, arith, eq_iff, ◌==◌,
  Bool-cases, All, All-map, All-append, if◌then◌else◌,
}
use livechat.Models.{Store}
use livechat.Chat.{ChatCaller}
use livechat.Chat.Lifecycle.{Step}
use livechat.Chat.Owned.{Owned, Step-Owned}
use livechat.Sockets.{
  Namespace, staff_ns, visitor_ns, Room, user_room, staff_room, global_staff_room, tenant_room,
  visitor_room, chat_room, Event, Emission, to_rooms, to_socket, Io, has_room, join, emit,
  emit_both, emit_watching, on_chats, guard, answered,
}
use livechat.Sockets.Rooms.{
  Home, staff_home, visitor_home, caller_of, tenant_of, NearVisitor, Near, IsSent, IsJoined,
  IsConfined,
}

Step-HasChatWith :
    (h : Home) (v : String) {s t : Store} → Step s t → NearVisitor h s v → NearVisitor h t v
Step-HasChatWith (staff_home u r tenant) v st (id, mine, theirs) = (
  id,
  Step-Owned (ChatCaller.staff (some tenant)) id st mine,
  Step-Owned (ChatCaller.visitor v) id st theirs,
)
Step-HasChatWith (visitor_home d) v st h = h

Step-Near :
    (h : Home) (ns : Namespace) (e : Event) (room : Room) {s t : Store}
    → Step s t
    → Near h s ns e room
    → Near h t ns e room
Step-Near h ns e (chat_room id) st n = Step-Owned (caller_of h) id st n
Step-Near h staff_ns e (tenant_room t) st n = n
Step-Near h visitor_ns e (tenant_room t) st n = n
Step-Near h staff_ns e global_staff_room st n = tt
Step-Near h visitor_ns e global_staff_room st n = n
Step-Near h ns e (user_room u) st n = n
Step-Near h ns e (visitor_room v) st n = Step-HasChatWith h v st n
Step-Near h ns e staff_room st n = n

Step-IsSent : (h : Home) (e : Emission) {s t : Store} → Step s t → IsSent h s e → IsSent h t e
Step-IsSent h (to_rooms ns rooms e) st n = All-map rooms (λ room. Step-Near h ns e room st) n
Step-IsSent h (to_socket e) st n = tt

Step-IsJoined :
    (h : Home) (room : Room) {s t : Store} → Step s t → IsJoined h s room → IsJoined h t room
Step-IsJoined h (chat_room id) st n = Step-Owned (caller_of h) id st n
Step-IsJoined h (user_room u) st n = tt
Step-IsJoined h staff_room st n = tt
Step-IsJoined h global_staff_room st n = tt
Step-IsJoined h (tenant_room t) st n = tt
Step-IsJoined h (visitor_room v) st n = tt

-- Another call of the chat service takes nothing away.
pub Step-IsConfined :
    (h : Home) (io : Io) {t : Store}
    → Step io.store t
    → IsConfined h io
    → IsConfined h (record io { store = t })
Step-IsConfined h io st (joined, sent) = (
  All-map io.rooms (λ room. Step-IsJoined h room st) joined,
  All-map io.emitted (λ e. Step-IsSent h e st) sent,
)

module _ (h : Home) where
  pub emit-IsConfined :
      (e : Emission) (io : Io) → IsSent h io.store e → IsConfined h io → IsConfined h (emit e io)
  emit-IsConfined e io s (joined, sent) = (joined, All-append _ io.emitted (e ∷ []) sent (s, tt))

  pub join-IsConfined :
      (room : Room) (io : Io)
      → IsJoined h io.store room
      → IsConfined h io
      → IsConfined h (join room io)
  join-IsConfined room io j (joined, sent) = (
    elim (Bool-cases (has_room room io.rooms)) [
      | inl there ↦ rw there joined
      | inr new ↦ rw new (All-append _ io.rooms (room ∷ []) joined (j, tt))
    ],
    sent,
  )

  -- A room that is owned.
  pub emit_both-IsConfined :
      (first second : Namespace) (id : String) (e : Event) (io : Io)
      → Owned (caller_of h) io.store id
      → IsConfined h io
      → IsConfined h (emit_both first second (chat_room id) e io)
  emit_both-IsConfined first second id e io owned c =
      emit-IsConfined (to_rooms second (chat_room id ∷ []) e)
        (emit (to_rooms first (chat_room id ∷ []) e) io) (owned, tt)
        (emit-IsConfined (to_rooms first (chat_room id ∷ []) e) io (owned, tt) c)

  pub emit_watching-IsConfined :
      (e : Event) (io : Io) → IsConfined h io → IsConfined h (emit_watching (tenant_of h) e io)
  emit_watching-IsConfined e io c =
      emit-IsConfined (to_rooms staff_ns (tenant_room (tenant_of h) ∷ global_staff_room ∷ []) e) io
        (refl, (tt, tt)) c

-- A guarded handler: what it leaves is confined whether it was refused or not.
pub guard-IsConfined :
    (h : Home) (event : String) (run : Action Io (Unit {0})) (io : Io)
    → IsConfined h (run io).1
    → IsConfined h (guard event run io)
unfolding guard answered
guard-IsConfined h event run io c = go (run io) c
  where
    go : (r : Result (Unit {0}) × Io) → IsConfined h r.1 → IsConfined h (answered event r)
    go (ok t, after) c = c
    go (err e, after) c =
        emit-IsConfined h (to_socket (Event.chat_error event e.message)) after tt c

-- A handler that calls the chat service and goes on with its answer.
pub on_chats-IsConfined :
    {A : Type 0} (h : Home) (m : Action Store A) (k : A → Action Io (Unit {0})) (io : Io)
    → Step io.store (m io.store).1
    → ((a : A)
        → (m io.store).0 ≡ ok a
        → IsConfined h (record io { store = (m io.store).1 })
        → IsConfined h (k a (record io { store = (m io.store).1 })).1)
    → IsConfined h io
    → IsConfined h ((on_chats m >>= k) io).1
on_chats-IsConfined {A} h m k io st next c = go (m io.store).0 refl
  where
    after : Io
    after = record io { store = (m io.store).1 }

    go :
        (r : Result A)
        → (m io.store).0 ≡ r
        → IsConfined h
            (elim r as (λ _. Result (Unit {0}) × Io) [ ok a ↦ k a after | err e ↦ throw e after ]).1
    go (ok a) e = next a e (Step-IsConfined h io st c)
    go (err x) e = Step-IsConfined h io st c

-- A handler that reads with the chat service and goes on with its answer.
pub on_chats-read :
    {A : Type 0} (h : Home) (m : Action Store A) (k : A → Action Io (Unit {0})) (io : Io)
    → (m io.store).1 ≡ io.store
    → ((a : A) → (m io.store).0 ≡ ok a → IsConfined h (k a io).1)
    → IsConfined h io
    → IsConfined h ((on_chats m >>= k) io).1
on_chats-read {A} h m k io same next c =
    subst
      (λ s.
        IsConfined h
          (elim (m io.store).0 as (λ _. Result (Unit {0}) × Io) [
            | ok a ↦ k a (record io { store = s })
            | err e ↦ throw e (record io { store = s })
          ]).1)
      (sym same) (go (m io.store).0 refl)
  where
    go :
        (r : Result A)
        → (m io.store).0 ≡ r
        → IsConfined h
            (elim r as (λ _. Result (Unit {0}) × Io) [ ok a ↦ k a io | err e ↦ throw e io ]).1
    go (ok a) e = next a e
    go (err x) e = c

-- A socket that is in a chat's room owns the chat.
pub has_room-Owned :
    (h : Home) (s : Store) (id : String) (rooms : List Room)
    → All (IsJoined h s) rooms
    → has_room (chat_room id) rooms ≡ true
    → Owned (caller_of h) s id
has_room-Owned h s id [] j e = ground arith
has_room-Owned h s id (chat_room other ∷ rooms) (j, js) e = elim (Bool-cases (id == other)) [
  | inl same ↦ subst (Owned (caller_of h) s) (sym ((eq_iff id other).0 same)) j
  | inr differs ↦ has_room-Owned h s id rooms js (ground arith)
]
has_room-Owned h s id (user_room u ∷ rooms) (j, js) e = has_room-Owned h s id rooms js e
has_room-Owned h s id (staff_room ∷ rooms) (j, js) e = has_room-Owned h s id rooms js e
has_room-Owned h s id (global_staff_room ∷ rooms) (j, js) e = has_room-Owned h s id rooms js e
has_room-Owned h s id (tenant_room t ∷ rooms) (j, js) e = has_room-Owned h s id rooms js e
has_room-Owned h s id (visitor_room v ∷ rooms) (j, js) e = has_room-Owned h s id rooms js e

-- What is relayed only for a chat room that the socket is in.
pub typing-IsConfined :
    (h : Home) (first second : Namespace) (id : String) (e : Event) (io : Io)
    → IsConfined h io
    → IsConfined h (
        if has_room (chat_room id) io.rooms then emit_both first second (chat_room id) e io else io)
typing-IsConfined h first second id e io c = elim (Bool-cases (has_room (chat_room id) io.rooms)) [
  | inl inside ↦ rw inside (
      emit_both-IsConfined h first second id e io (has_room-Owned h io.store id io.rooms c.0 inside)
        c)
  | inr outside ↦ rw outside c
]
