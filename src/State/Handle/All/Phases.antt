-- ===== src/State/Handle/All/Phases.antt =====
-- Each command changes the server and the phase as `Steps` says.
use mathlib.Core.Path.{subst₂}
use mum.Common.{
  ℕ, Text, ◌≡◌, sym, refl, Bool, true, false, Option, done, ◌>>=◌, Result, ok, err, WhenDone,
  WhenDone->>=, WhenDone-any, Option-cases, inl, inr,
}
use mum.Mumlib.Command.{Command, ConnectRequest, MessageTarget}
use mum.Audio.Effects.{NotificationEvents}
use mum.Mumlib.Error.{Error}
use mum.Protocol.{TextMessage}
use mum.State.Server.{Server, ConnectedServer, Named, channel_name}
use mum.State.Channel.Tree.{into_channel}
use mum.State.Core.{StatePhase, Daemon, Env, play, broadcast_phase, reload_config}
use mum.State.Core.Frame.{Same, play-Same, Agrees}
use mum.State.Handle.{ExecutionContext}
use mum.State.Handle.Mute.{
  deafen_action, mute_action, deafen_connected, mute_connected, deafen_self, deafen_self_in,
  mute_self, mute_self_in,
}
use mum.State.Handle.Others
use mum.State.Handle.Others.{
  find_user, suppress_action, set_output, mute_other, mute_other_in, user_volume_set, volume_set_in,
  join_named, channel_join, channel_join_in, channel_list, channel_list_in, server_from, status,
  status_in,
}
use mum.State.Handle.Messages.{
  addressed, send_made, send_message, send_message_in, past, past_messages, past_messages_in,
  events,
}
use mum.State.Handle.Connect.{
  start_connecting, server_connect, server_connect_in, server_disconnect, server_disconnect_in,
}
use mum.State.Handle.All.{handle_command}
use mum.State.Handle.All.Steps.{
  starts, ends, Follows, same, changed, change_self-Follows, reload-Same,
}

-- Each command, by the server it finds.
module _ (d : Daemon) where
  deafen_self-Follows :
      (server : Server) (t : Option Bool)
      → d.state.server ≡ server
      → WhenDone (Follows d) (deafen_self_in server d t)
  unfolding deafen_self_in deafen_connected
  deafen_self-Follows (Server.connected s) t on =
      elim (Option-cases (deafen_action t s.muted s.deafened)) [
        | inl e ↦ rw (e, deafen_connected) (same d refl refl)
        | inr ((mute, deafen), e) ↦
            rw (e, deafen_connected) (change_self-Follows d s on mute deafen _)
      ]
  deafen_self-Follows _ t on = same d refl refl

  mute_self-Follows :
      (server : Server) (t : Option Bool)
      → d.state.server ≡ server
      → WhenDone (Follows d) (mute_self_in server d t)
  unfolding mute_self_in mute_connected
  mute_self-Follows (Server.connected s) t on =
      elim (Option-cases (mute_action t s.muted s.deafened)) [
        | inl e ↦ rw (e, mute_connected) (same d refl refl)
        | inr ((mute, deafen), e) ↦
            rw (e, mute_connected) (change_self-Follows d s on mute deafen _)
      ]
  mute_self-Follows _ t on = same d refl refl

  mute_other-Follows :
      (server : Server) (username : Text) (t : Option Bool)
      → d.state.server ≡ server
      → WhenDone (Follows d) (mute_other_in server d username t)
  unfolding mute_other_in Others.mute_connected
  mute_other-Follows (Server.connected s) username t on =
      elim (Option-cases (find_user s.users username)) [
        | inl e ↦ rw (e, Others.mute_connected) (same d refl refl)
        | inr ((id, user), e) ↦
            rw (e, Others.mute_connected)
              (elim (Option-cases (suppress_action t user.suppress)) [
                | inl idle ↦ rw idle (same d refl refl)
                | inr (action, act) ↦
                    rw act (changed d s on _ s.muted s.deafened d.state.phase refl)
              ])
      ]
  mute_other-Follows _ username t on = same d refl refl

  volume_set-Follows :
      (server : Server) (username : Text) (volume : ℕ)
      → WhenDone (Follows d) (volume_set_in server d username volume)
  unfolding volume_set_in
  volume_set-Follows (Server.connected s) username volume =
      elim (Option-cases (find_user s.users username)) [
        | inl e ↦ rw (e, volume_set_in) (same d refl refl)
        | inr ((id, user), e) ↦ rw (e, volume_set_in) (same d refl refl)
      ]
  volume_set-Follows _ username volume = same d refl refl

  join_named-Follows :
      (s : ConnectedServer) (identifier : Text) (named : Named)
      → WhenDone (Follows d) (join_named d s identifier named)
  unfolding join_named
  join_named-Follows s identifier (ok (id, c)) = same d refl refl
  join_named-Follows s identifier (err e) = same d refl refl

  channel_join-Follows :
      (env : Env) (server : Server) (identifier : Text)
      → WhenDone (Follows d) (channel_join_in env server d identifier)
  unfolding channel_join_in
  channel_join-Follows env (Server.connected s) identifier =
      WhenDone-any (Follows d) (channel_name env.to_lowercase s.channels identifier) _
        (join_named-Follows s identifier)
  channel_join-Follows env _ identifier = same d refl refl

  channel_list-Follows : (server : Server) → WhenDone (Follows d) (channel_list_in server d)
  unfolding channel_list_in
  channel_list-Follows (Server.connected s) =
      WhenDone-any (Follows d) (into_channel s.channels s.users) _ (λ list. same d refl refl)
  channel_list-Follows _ = same d refl refl

  status-Follows : (server : Server) → WhenDone (Follows d) (status_in server d)
  unfolding status_in
  status-Follows (Server.connected s) =
      WhenDone-any (Follows d) (server_from s) _ (λ server_state. same d refl refl)
  status-Follows _ = same d refl refl

  send_made-Follows : (made : Result TextMessage Error) → WhenDone (Follows d) (send_made d made)
  unfolding send_made
  send_made-Follows (ok msg) = same d refl refl
  send_made-Follows (err e) = same d refl refl

  send_message-Follows :
      (env : Env) (server : Server) (message : Text) (targets : MessageTarget)
      → WhenDone (Follows d) (send_message_in env server d message targets)
  unfolding send_message_in
  send_message-Follows env (Server.connected s) message targets =
      WhenDone-any (Follows d) (addressed env s message targets) _ send_made-Follows
  send_message-Follows env _ message targets = same d refl refl

  past_messages-Follows :
      (server : Server) (block : Bool) → WhenDone (Follows d) (past_messages_in server d block)
  unfolding past_messages_in
  past_messages-Follows (Server.connected s) true = same d refl refl
  past_messages-Follows (Server.connected s) false =
      WhenDone-any (Follows d) (past d.state d.state.message_buffer) _
        (λ responses. same d refl refl)
  past_messages-Follows _ block = same d refl refl

  server_connect-Follows :
      (env : Env) (server : Server) (r : ConnectRequest)
      → d.state.server ≡ server
      → WhenDone (Follows d) (server_connect_in env server d r)
  unfolding server_connect_in start_connecting broadcast_phase
  server_connect-Follows env Server.disconnected r on =
      elim (Option-cases (env.resolve r.host r.port)) [
        | inl e ↦ rw (e, server_connect_in) (starts _ on refl, λ f. refl)
        | inr (addr, e) ↦ rw (e, server_connect_in) (starts _ on refl, λ f. refl)
      ]
  server_connect-Follows env _ r on = same d refl refl

  server_disconnect-Follows :
      (server : Server)
      → d.state.server ≡ server
      → WhenDone (Follows d) (server_disconnect_in server d)
  unfolding server_disconnect_in broadcast_phase
  server_disconnect-Follows (Server.connected s) on =
      WhenDone->>= (λ t. (t.server ≡ Server.disconnected) × (t.phase ≡ StatePhase.disconnected)) _
        (play _ NotificationEvents.server_disconnect) _
        (play-Same _ NotificationEvents.server_disconnect)
        (λ t eq. (ends s on eq.0, λ f. subst₂ Agrees (sym eq.0) (sym eq.1) refl))
  server_disconnect-Follows _ on = same d refl refl

  reload-Follows :
      (env : Env) (x : ExecutionContext)
      → WhenDone (Follows d) (reload_config env d.state >>= λ s. done (record d { state = s }, x))
  reload-Follows env x =
      WhenDone->>= (Same d.state) _ (reload_config env d.state) _ (reload-Same env d.state)
        (λ s eq. same d eq.0 eq.1)

-- A command that returns moves the server in one of four ways: it stays, it goes from disconnected to
-- connecting, from connected to disconnected, or it stays connected with another roster of users,
-- muting or deafening; and if the phase is that of the server before, it is so after.
pub handle_command-Follows :
    (env : Env) (d : Daemon) (c : Command) → WhenDone (Follows d) (handle_command env d c)
unfolding handle_command deafen_self mute_self mute_other user_volume_set channel_join channel_list
    status send_message past_messages events server_connect server_disconnect
handle_command-Follows env d (Command.channel_join identifier) =
    channel_join-Follows d env d.state.server identifier
handle_command-Follows env d Command.channel_list = channel_list-Follows d d.state.server
handle_command-Follows env d Command.config_reload = reload-Follows d env _
handle_command-Follows env d (Command.deafen_self t) = deafen_self-Follows d d.state.server t refl
handle_command-Follows env d (Command.events true) = same d refl refl
handle_command-Follows env d (Command.events false) = same d refl refl
handle_command-Follows env d (Command.input_volume_set volume) = same d refl refl
handle_command-Follows env d (Command.mute_other u t) = mute_other-Follows d d.state.server u t refl
handle_command-Follows env d (Command.mute_self t) = mute_self-Follows d d.state.server t refl
handle_command-Follows env d (Command.output_volume_set volume) = same d refl refl
handle_command-Follows env d (Command.past_messages block) =
    past_messages-Follows d d.state.server block
handle_command-Follows env d Command.ping = same d refl refl
handle_command-Follows env d (Command.send_message m t) =
    send_message-Follows d env d.state.server m t
handle_command-Follows env d (Command.server_connect r) =
    server_connect-Follows d env d.state.server r refl
handle_command-Follows env d Command.server_disconnect =
    server_disconnect-Follows d d.state.server refl
handle_command-Follows env d (Command.server_status host port) = same d refl refl
handle_command-Follows env d Command.status = status-Follows d d.state.server
handle_command-Follows env d (Command.user_volume_set u v) = volume_set-Follows d d.state.server u v
