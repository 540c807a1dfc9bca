-- ===== src/Sockets/Refused.antt =====
-- api/src/io/detach.ts: what `guard` makes of a refused call.
use livechat.ApiError.{Result, ok, err, ApiError}
use livechat.Prelude.{String, ◌≡◌, ap}
use livechat.Prelude.Action.{Action, throw, ◌>>=◌}
use livechat.Models.{Store}
use livechat.Sockets.{Event, to_socket, Io, emit, on_chats, guard, answered}

-- A handler whose call of the chat service is refused only tells the socket why.
pub guard-refused :
    {A : Type 0} (event : String) (m : Action Store A) (k : A → Action Io (Unit {0})) (io : Io)
    (e : ApiError)
    → m io.store ≡ (err e, io.store)
    → guard event (on_chats m >>= k) io ≡ emit (to_socket (Event.chat_error event e.message)) io
unfolding guard answered
guard-refused {A} event m k io e refused =
    ap
      (λ (r : Result A × Store). answered event (elim r.0 as (λ _. Result (Unit {0}) × Io) [
        | ok a ↦ k a (record io { store = r.1 })
        | err x ↦ throw x (record io { store = r.1 })
      ]))
      refused
