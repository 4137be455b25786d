-- ===== src/State/Handle/Messages/Laws.antt =====
-- Whom a message goes to, and which past messages are answered.
use mathlib.Core.Path.{subst}
use mum.Common.{ℕ, ◌≡◌, sym, refl, false, Text, some, List, [], ◌∷◌, ◌++◌, map, done, ok}
use mum.Common.Dict.{Dict}
use mum.Mumlib.Error.{Error}
use mum.Mumlib.Command.{CommandResponse, Response}
use mum.State.User.{User}
use mum.State.Server.{Server, ConnectedServer}
use mum.State.Core.{State, Daemon, get_user_name, name_on}
use mum.State.Handle.{now}
use mum.State.Handle.Others.{find_user}
use mum.State.Handle.Others.Laws.{Unknown}
use mum.State.Handle.Messages.{past, past_messages, past_messages_in}

-- The names are those of users, whose sessions are the ids.
pub data Found (users : Dict User) : List Text → List ℕ → Type 0 where
  nobody : Found users [] []
  somebody :
      {names : List Text} {ids : List ℕ} (name : Text) (id : ℕ) (u : User)
      → find_user users name ≡ some (id, u)
      → Found users names ids
      → Found users (name ∷ names) (id ∷ ids)

-- The first of the names that no user has.
pub record FirstUnknown (users : Dict User) (names : List Text) (name : Text) : Type 0 where
  pub before : List Text
  pub after : List Text
  pub ids : List ℕ
  pub split : names ≡ before ++ name ∷ after
  pub found : Found users before ids
  pub unknown : Unknown users name

-- The answer to one stored message.
abbrev pub past_response : ConnectedServer → ℕ × Text × ℕ → Response
past_response s m = ok (some (CommandResponse.past_message m.0 m.1 (name_on s m.2)))

past_lem :
    (state : State) (s : ConnectedServer) (messages : List (ℕ × Text × ℕ))
    → state.server ≡ Server.connected s
    → past state messages ≡ done (map (past_response s) messages)
unfolding past get_user_name
past_lem state s [] on = refl
past_lem state s ((t, m, u) ∷ rest) on = rw (on, get_user_name) (rw (past_lem state s rest on) refl)

-- `PastMessages` without blocking answers every stored message once, in order, with the name of its
-- sender or a text for an unknown one, and empties the store: a second one is answered by nothing.
pub past_messages-drain :
    (d : Daemon) (s : ConnectedServer)
    → d.state.server ≡ Server.connected s
    → (e : Daemon) × (past_messages d false
        ≡ done (e, now (map (past_response s) d.state.message_buffer)))
      × (e.state.message_buffer ≡ [])
      × (e.state.server ≡ d.state.server)
      × (past_messages e false ≡ done (e, now []))
unfolding past_messages past
past_messages-drain d s on =
    let e : Daemon = record d { state = record (d.state) { message_buffer = [] } } in
    let answers = map (past_response s) d.state.message_buffer in
    (
      e,
      subst (λ x. past_messages_in x d false ≡ done (e, now answers)) (sym on)
          (rw (past_lem d.state s d.state.message_buffer on)),
      refl,
      refl,
      subst (λ x. past_messages_in x e false ≡ done (e, now [])) (sym on) refl,
    )
