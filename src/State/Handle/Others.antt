-- ===== src/State/Handle/Others.antt =====
-- The commands on other users, `MuteOther` and `UserVolumeSet`, and on the channels, `ChannelJoin`,
-- `ChannelList` and `Status`.
pub mod Laws
pub mod Joins
use mum.Common.{
  ℕ, Text, text_eq, Bool, not, differs, then_some, Option, none, some, find, Outcome, done, ◌>>=◌,
  Result, ok, err,
}
use mum.Common.Dict.{Dict, get, insert}
use mum.Protocol.{UserState}
use mum.Mumlib.Tree
use mum.Mumlib.Error.{Error}
use mum.Mumlib.Command.{CommandResponse, F32}
use mum.Audio.Output
use mum.State.User.{User, set_suppressed}
use mum.State.Channel.Tree.{into_channel}
use mum.State.Server.{Server, ConnectedServer, Named, channel_name}
use mum.State.Core.{State, Daemon, Env, Packet, set_server}
use mum.State.Handle.{Reply, now_one, now_ok, now_err, send_packet}
use mum.State.Handle.Mute.{blank_message}

-- `users.iter().find(|(_, user)| user.name() == username)`.
unfoldable pub find_user : Dict User → Text → Option (ℕ × User)
find_user users username = find (λ e. text_eq e.1.name username) users

unfoldable pub suppress_action : Option Bool → Bool → Option Bool
suppress_action none suppressed = some (not suppressed)
suppress_action (some state) suppressed = then_some (differs suppressed state) state

abbrev pub set_output : Daemon → (Output.AudioOutput → Output.AudioOutput) → Daemon
set_output d f = record d { state = record (d.state) { audio_output = f d.state.audio_output } }

unfoldable pub mute_connected : Daemon → ConnectedServer → Text → Option Bool → Reply
mute_connected d s username toggle = elim (find_user s.users username) [
  | none ↦ now_err d (Error.invalid_username username)
  | some (id, user) ↦ elim (suppress_action toggle user.suppress) [
    | none ↦ now_ok d
    | some action ↦ now_ok (
        set_output
          (set_server d (
            Server.connected (record s { users = insert s.users id (set_suppressed user action) })))
          (λ a. Output.set_mute a id action))
  ]
]

unfoldable pub mute_other_in : Server → Daemon → Text → Option Bool → Reply
mute_other_in (Server.connected s) d username toggle = mute_connected d s username toggle
mute_other_in _ d username toggle = now_err d Error.disconnected

unfoldable pub mute_other : Daemon → Text → Option Bool → Reply
unfolding mute_other_in
mute_other d username toggle = mute_other_in d.state.server d username toggle

unfoldable pub volume_set_in : Server → Daemon → Text → F32 → Reply
volume_set_in (Server.connected s) d username volume = elim (find_user s.users username) [
  | none ↦ now_err d (Error.invalid_username username)
  | some (id, user) ↦ now_ok (set_output d (λ a. Output.set_user_volume a id volume))
]
volume_set_in _ d username volume = now_err d Error.disconnected

unfoldable pub user_volume_set : Daemon → Text → F32 → Reply
unfolding volume_set_in
user_volume_set d username volume = volume_set_in d.state.server d username volume

-- The message asks the server to move our session.
abbrev pub join_message : ℕ → ℕ → UserState
join_message session id = record blank_message { session = some session; channel_id = some id }

unfoldable pub join_named : Daemon → ConnectedServer → Text → Named → Reply
join_named d s identifier (ok (id, c)) =
    now_ok (send_packet d (Packet.user_state (join_message s.session_id id)))
join_named d s identifier (err e) = now_err d (Error.channel_identifier_error identifier e)

unfoldable pub channel_join_in : Env → Server → Daemon → Text → Reply
channel_join_in env (Server.connected s) d identifier = do
  named ← channel_name env.to_lowercase s.channels identifier
  join_named d s identifier named
channel_join_in env _ d identifier = now_err d Error.disconnected

unfoldable pub channel_join : Env → Daemon → Text → Reply
unfolding channel_join_in
channel_join env d identifier = channel_join_in env d.state.server d identifier

unfoldable pub channel_list_in : Server → Daemon → Reply
channel_list_in (Server.connected s) d = do
  list ← into_channel s.channels s.users
  now_one d (ok (some (CommandResponse.channel_list list)))
channel_list_in _ d = now_err d Error.disconnected

unfoldable pub channel_list : Daemon → Reply
unfolding channel_list_in
channel_list d = channel_list_in d.state.server d

-- `From<&ConnectedServer> for mumlib::state::Server`.
unfoldable pub server_from : ConnectedServer → Outcome Tree.Server
server_from s = do
  channels ← into_channel s.channels s.users
  done (record {
    channels = channels;
    welcome_text = s.welcome_text;
    username = s.username;
    host = s.host;
  })

unfoldable pub status_in : Server → Daemon → Reply
status_in (Server.connected s) d = do
  server_state ← server_from s
  now_one d (ok (some (CommandResponse.status server_state)))
status_in _ d = now_err d Error.disconnected

unfoldable pub status : Daemon → Reply
unfolding status_in
status d = status_in d.state.server d
