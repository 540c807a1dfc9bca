-- ===== src/Chat/Kept.antt =====
-- api/src/services/chat-service.ts beside the other services that write to its tables: what stays of a
-- chat. api/src/services/{visitor-session-service,consent-service,data-retention-service}.ts write
-- the rows of visitor sessions and destroy sessions with their chats.
use livechat.Prelude.{
  String, ◌≡◌, refl, ap, ◌∙◌, ◌≢◌, true, false, not, none, some, List, [], ◌∷◌, map, filter, find,
  includes, eq_iff, ◌==◌, arith,
}
use livechat.Models.{
  Chat, ChatMessage, VisitorSession, Store, has_id, find_chat, chat_ids_of, destroy_sessions,
}
use livechat.Chat.{list_messages}
use livechat.Chat.Lifecycle.{Step}
use livechat.Chat.Lifecycle.Refines.{Step-Moves}
use livechat.Chat.Lifecycle.Invariants.{IsConsistent, is_ended, Later, Later-refl, Moves-LaterThan}
use livechat.Chat.Transcript.{Step-list_messages}

-- Any calls of the chat service, writes of visitor sessions and deletions of sessions, in any order,
-- of which no deletion takes the chat.
pub data Spared (id : String) (s : Store) : Store → Type 0 where
  untouched : Spared id s s
  call : {t u : Store} → Spared id s t → Step t u → Spared id s u
  track :
      {t : Store}
      → Spared id s t
      → (sessions : List VisitorSession) → Spared id s (record t { visitor_sessions = sessions })
  destroy :
      {t : Store}
      → Spared id s t
      → (session_ids : List String) → includes id (chat_ids_of session_ids t) ≡ false
      → Spared id s (destroy_sessions session_ids t)

-- A row that is found stays found when the rows of other ids are dropped.
find-spared :
    (id : String) (gone : List String) (chats : List Chat) {c : Chat}
    → includes id (map (λ x. x.id) (filter (λ x. includes x.visitor_session_id gone) chats)) ≡ false
    → find (has_id id) chats ≡ some c
    → find (has_id id) (filter (λ x. not (includes x.visitor_session_id gone)) chats) ≡ some c
unfolding find
find-spared id gone [] apart found = found
find-spared id gone (x ∷ chats) {c} apart found =
    ground (arith, eq_iff x.id id, find-spared id gone chats {c = c})

filter-spared :
    (id : String) (gone : List String) (ms : List ChatMessage)
    → includes id gone ≡ false
    → filter (λ m. m.chat_id == id) (filter (λ m. not (includes m.chat_id gone)) ms)
      ≡ filter (λ m. m.chat_id == id) ms
filter-spared id gone [] apart = refl
filter-spared id gone (m ∷ ms) apart =
    ground (arith, eq_iff m.chat_id id, filter-spared id gone ms apart)

-- Whatever the chat service is asked and whatever happens to visitor sessions, a chat that no deletion
-- of its session takes is there, with its tenant and visitor, no further back in its life; and once it
-- has ended, its status and its end time stay.
pub Spared-Later :
    (id : String) {s t : Store} {c : Chat}
    → find_chat id s ≡ some c
    → IsConsistent c
    → Spared id s t
    → (d : Chat) × (find_chat id t ≡ some d) × IsConsistent d × Later c d
unfolding destroy_sessions
Spared-Later id {c} found h untouched = (c, found, h, Later-refl c)
Spared-Later id found h (call r st) = Moves-LaterThan (Step-Moves id st) (Spared-Later id found h r)
Spared-Later id found h (track r sessions) = Spared-Later id found h r
Spared-Later id found h (destroy {t} r session_ids apart) =
    let (d, there, hd, later) = Spared-Later id found h r in
    (d, find-spared id session_ids t.chats apart there, hd, later)

-- The transcript of a chat that has ended stays as it is, whatever the chat service is asked and
-- whatever happens to visitor sessions, as long as no deletion of its session takes the chat.
pub Spared-list_messages :
    (id : String) {s t : Store} {c : Chat}
    → find_chat id s ≡ some c
    → IsConsistent c
    → is_ended c.status ≡ true
    → Spared id s t
    → list_messages id t ≡ list_messages id s
unfolding list_messages destroy_sessions
Spared-list_messages id found h ended untouched = refl
Spared-list_messages id {c} found h ended (call r st) =
    let (d, named, hd, later) = Spared-Later id found h r in
    let still : d.ended_at ≢ none =
      hd.ended_has_time (ap is_ended (later.same_end ended).0 ∙ ended) in
    Step-list_messages id named still st ∙ Spared-list_messages id found h ended r
Spared-list_messages id found h ended (track r sessions) = Spared-list_messages id found h ended r
Spared-list_messages id found h ended (destroy {t} r session_ids apart) =
    rw (filter-spared id (chat_ids_of session_ids t) t.messages apart)
      (Spared-list_messages id found h ended r)
