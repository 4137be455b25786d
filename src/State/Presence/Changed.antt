-- ===== src/State/Presence/Changed.antt =====
-- The daemon after `user_state` and `remove_user` while connected.
use mum.Common.{ℕ, ◌≡◌, Option, none, get_or, List, [], ◌∷◌, ◌++◌, map, ◌==◌, if◌then◌else◌}
use mum.Common.Dict.{Dict, get}
use mum.Protocol.{UserState, UserRemove}
use mum.Mumlib.Event.{MumbleEventKind}
use mum.State.User.{User}
use mum.State.Server
use mum.State.Server.{Server, ConnectedServer, users_channel}
use mum.State.Server.Histories.{after_messages, messages_for}
use mum.State.Core.{Daemon, Env}

-- The daemon after a change of the roster: who is on it, with what is known of them, is as expected,
-- the events are added behind those that were there, and the server's other fields, the phase, the
-- messages, the volumes, the sounds and what was sent are as before.
pub record Changed (env : Env) (d : Daemon) (s : ConnectedServer) (kinds : List MumbleEventKind)
    (expected : ℕ → Option User) (e : Daemon) : Type 0 where
  pub users : Dict User
  pub server_is : e.state.server ≡ Server.connected (record s { users = users })
  pub users_are : (id : ℕ) → get users id ≡ expected id
  pub events :
      e.state.events ≡ d.state.events ++ map (λ k. record { timestamp = env.now; kind = k }) kinds
  pub phase : e.state.phase ≡ d.state.phase
  pub message_buffer : e.state.message_buffer ≡ d.state.message_buffer
  pub user_volumes : e.state.audio_output.user_volumes ≡ d.state.audio_output.user_volumes
  pub sounds : e.state.audio_output.sounds ≡ d.state.audio_output.sounds
  pub packets : e.packets ≡ d.packets

module _ (env : Env) (d : Daemon) (s : ConnectedServer) (me : User) where
  abbrev pub expected_after : UserState → ℕ → Option User
  expected_after msg id = after_messages (get s.users id) (messages_for id (msg ∷ []))

  abbrev pub expected_without : UserRemove → ℕ → Option User
  expected_without msg id = if get_or msg.session 0 == id then none else get s.users id
