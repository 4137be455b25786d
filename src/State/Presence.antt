-- ===== src/State/Presence.antt =====
-- mum/src/state.rs, `user_state` and `remove_user`: what the daemon tells the user when somebody
-- comes, goes, moves or mutes, and the change of the roster.
pub mod Frame
pub mod Laws
pub mod Safe
pub mod News
pub mod Changed
pub mod Moves
use mum.Common.{
  ℕ, Text, text, Bool, true, false, differs, Option, some, none, get_or, is_some, then_some, List,
  [], ◌∷◌, ◌++◌, ◌||◌, ◌&&◌, push, ◌==◌, Outcome, done, ◌>>=◌, if◌then◌else◌,
}
use mum.Common.Dict.{Dict, get}
use mum.Protocol.{UserState, UserRemove}
use mum.Mumlib.Event.{
  MumbleEventKind, user_left_channel, user_joined_channel, user_connected, user_disconnected,
  user_mute_state_changed,
}
use mum.Audio.Effects.{NotificationEvents}
use mum.State.User.{User}
use mum.State.Channel.{Channel}
use mum.State.Server
use mum.State.Server.{Server, ConnectedServer, users_channel}
use mum.State.Core.{State, Daemon, Env, set_server, play, push_event}

-- The state with its notifications, and the events that are pushed at the end.
pub record Notes : Type 0 where
  pub daemon : Daemon
  pub kinds : List MumbleEventKind

-- `notifications::send` and `events.push`.
unfoldable pub tell : Notes → Text → MumbleEventKind → Notes
tell n message kind = record n {
  daemon = record (n.daemon) { notifications = push n.daemon.notifications message };
  kinds = push n.kinds kind;
}

unfoldable pub sound : Notes → NotificationEvents → Outcome Notes
sound n effect = do
  s ← play n.daemon.state effect
  done (record n { daemon = record (n.daemon) { state = s } })

unfoldable pub channel_name_or : ConnectedServer → ℕ → Text
channel_name_or s id = elim (get s.channels id) [
  | none ↦ text "<unnamed channel>"
  | some c ↦ c.name
]

unfoldable pub user_name_or : ConnectedServer → ℕ → Text
user_name_or s id = elim (get s.users id) [ none ↦ text "<unknown user>" | some u ↦ u.name ]

-- The user moved from our channel to somewhere else; only a known channel is reported.
unfoldable pub moved_away : ConnectedServer → ℕ → User → Notes → Outcome Notes
moved_away s to_channel user n =
    let told : Notes = elim (get s.channels to_channel) [
      | none ↦ n
      | some c ↦
          tell n (user.name ++ (text " moved to channel " ++ c.name))
            (user_left_channel user.name c.name)
    ] in
    sound told NotificationEvents.user_left_channel

-- The user moved from somewhere else to our channel.
unfoldable pub moved_here : ConnectedServer → User → Notes → Outcome Notes
moved_here s user n =
    let told : Notes = elim (get s.channels user.channel) [
      | none ↦ n
      | some c ↦
          tell n (user.name ++ (text " moved to your channel from " ++ c.name))
            (user_joined_channel user.name c.name)
    ] in
    sound told NotificationEvents.user_joined_channel

unfoldable pub moved : ConnectedServer → ℕ → ℕ → User → Notes → Outcome Notes
moved s this_channel to_channel user n =
    if user.channel == to_channel
    then done n
    else if user.channel == this_channel
    then moved_away s to_channel user n
    else if to_channel == this_channel
    then moved_here s user n
    else done n

-- `(msg.has_x() && user.x() != msg.get_x()).then(|| msg.get_x())`.
abbrev pub changed : Bool → Option Bool → Option Bool
changed old field =
    then_some (is_some field && differs old (get_or field false)) (get_or field false)

abbrev pub part : Option Bool → Text → Text → Text
part none yes_text no_text = []
part (some true) yes_text no_text = yes_text
part (some false) yes_text no_text = no_text

unfoldable pub mute_message : Text → Option Bool → Option Bool → Text
mute_message name mute deaf =
    name
    ++ (part mute (text " muted") (text " unmuted")
        ++ ((if is_some mute && is_some deaf then text " and" else [])
            ++ (part deaf (text " deafened") (text " undeafened") ++ text " themselves")))

unfoldable pub muted : UserState → User → Notes → Notes
muted msg user n =
    let mute = changed user.self_mute msg.self_mute in
    let deaf = changed user.self_deaf msg.self_deaf in
    let message = mute_message user.name mute deaf in
    if is_some mute || is_some deaf then tell n message (user_mute_state_changed message) else n

unfoldable pub arrived : ConnectedServer → ℕ → ℕ → UserState → Notes → Outcome Notes
arrived s this_channel to_channel msg n =
    let name = get_or msg.name [] in
    let channel = channel_name_or s this_channel in
    if this_channel == to_channel
    then sound
        (tell n (name ++ (text " connected and joined " ++ channel)) (user_connected name channel))
        NotificationEvents.user_connected
    else done n

abbrev pub message_session : UserState → ℕ
message_session msg = get_or msg.session 0

-- The notifications of `user_state` while connected.
unfoldable pub announce : ConnectedServer → UserState → Notes → Outcome Notes
announce s msg n = do
  this_channel ← users_channel s s.session_id
  if message_session msg == s.session_id then done n else elim (get s.users (message_session msg)) [
    | none ↦ arrived s this_channel (get_or msg.channel_id 0) msg n
    | some user ↦ do
      m ← moved s this_channel (get_or msg.channel_id 0) user n
      done (muted msg user m)
  ]

unfoldable pub push_events : Env → State → List MumbleEventKind → State
push_events env s [] = s
push_events env s (kind ∷ kinds) = push_events env (push_event env s kind) kinds

-- The server takes the change, then the events are stored.
unfoldable pub commit : Env → Server → Notes → Daemon
commit env server n =
    let d = set_server n.daemon server in record d { state = push_events env d.state n.kinds }

user_state_in : Env → Server → Daemon → UserState → Outcome Daemon
user_state_in env Server.disconnected d msg = done d
user_state_in env (Server.connecting sb) d msg =
    done (set_server d (Server.connecting (record sb { users = Server.user_state msg sb.users })))
user_state_in env (Server.connected s) d msg = do
  n ← announce s msg (record { daemon = d; kinds = [] })
  done (commit env (Server.connected (record s { users = Server.user_state msg s.users })) n)

unfoldable pub user_state : Env → Daemon → UserState → Outcome Daemon
unfolding user_state_in
user_state env d msg = user_state_in env d.state.server d msg

-- A user that is not there panics, like one of ours that is not.
unfoldable pub farewell : ConnectedServer → UserRemove → Notes → Outcome Notes
farewell s msg n = do
  this_channel ← users_channel s s.session_id
  other_channel ← users_channel s (get_or msg.session 0)
  let name = user_name_or s (get_or msg.session 0)
  if this_channel == other_channel
      then sound
          (tell n (name ++ text " disconnected")
            (user_disconnected name (channel_name_or s this_channel)))
          NotificationEvents.user_disconnected
      else done n

remove_user_in : Env → Server → Daemon → UserRemove → Outcome Daemon
remove_user_in env Server.disconnected d msg = done d
remove_user_in env (Server.connecting sb) d msg =
    done (set_server d (Server.connecting (record sb { users = Server.user_remove msg sb.users })))
remove_user_in env (Server.connected s) d msg = do
  n ← farewell s msg (record { daemon = d; kinds = [] })
  done (commit env (Server.connected (record s { users = Server.user_remove msg s.users })) n)

unfoldable pub remove_user : Env → Daemon → UserRemove → Outcome Daemon
unfolding remove_user_in
remove_user env d msg = remove_user_in env d.state.server d msg
