-- ===== src/State/Handle/Connect/Laws.antt =====
-- Connecting: what `ServerConnect` starts, how a connection that fails early leaves the daemon.
use mathlib.Core.Path.{subst}
use mum.Common.{
  Option-cases, ◌++◌, text, show, Text, ◌≡◌, sym, refl, ◌⊎◌, inl, inr, Option, none, some, List, [],
  ◌∷◌, done, WhenDone-imp, Ends, Ends->>=, Ends-WhenDone, true, false,
}
use mum.Mumlib.Error.{Error}
use mum.Mumlib.Command.{Command, ConnectRequest}
use mum.Audio.Effects.Complete.{Decodes}
use mum.State.Core.Loading.{reload_config-IsLoaded}
use mum.State.Presence.Laws.{IsLoaded}
use mum.State.Handle.Mute.{deafen_self, deafen_self_in, mute_self, mute_self_in}
use mum.State.Handle.Others.{
  mute_other, mute_other_in, user_volume_set, volume_set_in, channel_join, channel_join_in,
  channel_list, channel_list_in, status, status_in,
}
use mum.State.Handle.Messages.{
  send_message, send_message_in, past_messages, past_messages_in, events,
}
use mum.State.Server
use mum.State.Server.{Server, ConnectingServer}
use mum.State.Core.{
  StatePhase, Daemon, Env, ConnectionInfo, broadcast_phase, reload_config, username, password,
}
use mum.State.Handle.{
  tcp_event_callback, TcpEvent, TcpEventCallback, DisconnectedReason, now_err, Reply,
}
use mum.State.Handle.Connect.{
  start_connecting, server_connect, server_connect_in, server_disconnect, server_disconnect_in,
}
use mum.State.Handle.All.{handle_command}
use mum.State.Handle.All.Steps.{Moves, stays, starts, ends, changes, Follows}
use mum.State.Handle.All.Phases.{handle_command-Follows}

-- The daemon is connecting with the request: the server, the phase, and what `authenticate` reads.
pub record IsConnecting (d : Daemon) (r : ConnectRequest) (e : Daemon) : Type 0 where
  pub sb : ConnectingServer
  pub server : e.state.server ≡ Server.connecting sb
  pub phase : e.state.phase ≡ StatePhase.connecting
  pub user : username e.state ≡ some r.username
  pub pass : password e.state ≡ r.password
  pub empty : (sb.users ≡ []) × (sb.channels ≡ [])
  pub packets : e.packets ≡ d.packets

start_connecting-IsConnecting :
    (d : Daemon) (r : ConnectRequest) (info : Option ConnectionInfo)
    → IsConnecting d r (record (start_connecting d r) { connection_info = info })
unfolding start_connecting broadcast_phase username password mum.State.Server.new
start_connecting-IsConnecting d r info = record {
  sb = Server.new (r.host ++ (text ":" ++ show r.port)) r.username r.password;
  server = refl;
  phase = refl;
  user = refl;
  pass = refl;
  empty = (refl, refl);
  packets = refl;
}

abbrev pub connect_callbacks : List (TcpEvent × TcpEventCallback)
connect_callbacks =
    (TcpEvent.connected, TcpEventCallback.answer_connected)
    ∷ (TcpEvent.disconnected DisconnectedReason.invalid_tls, TcpEventCallback.answer_cert_reject)
    ∷ []

-- `ServerConnect` while disconnected starts connecting with the name and password of the request. If
-- the host resolves, the connection task gets its address and both outcomes have a callback; if it
-- does not, the address is reported invalid and no task is told, though the daemon is connecting.
pub server_connect-IsConnecting :
    (env : Env) (d : Daemon) (r : ConnectRequest)
    → d.state.server ≡ Server.disconnected
    → (e : Daemon) × IsConnecting d r e
      × (((addr : Text) × (env.resolve r.host r.port ≡ some addr)
            × (e.connection_info
                ≡ some (record {
                  socket_addr = addr;
                  hostname = r.host;
                  accept_invalid_cert = r.accept_invalid_cert;
                }))
            × (server_connect env d r ≡ done (e, tcp_event_callback connect_callbacks)))
          ⊎ ((env.resolve r.host r.port ≡ none)
              × (e.connection_info ≡ d.connection_info)
              × (server_connect env d r ≡ now_err e (Error.invalid_server_addr r.host r.port))))
unfolding server_connect start_connecting broadcast_phase username password
server_connect-IsConnecting env d r on = elim (Option-cases (env.resolve r.host r.port)) [
  | inl e ↦ (
    start_connecting d r,
    start_connecting-IsConnecting d r _,
    inr (
      e,
      refl,
      subst
          (λ x.
            server_connect_in env x d r
            ≡ now_err (start_connecting d r) (Error.invalid_server_addr r.host r.port))
          (sym on) (rw (e, server_connect_in) refl),
    ),
  )
  | inr (addr, e) ↦ (
    record (start_connecting d r) {
      connection_info = some (record {
        socket_addr = addr;
        hostname = r.host;
        accept_invalid_cert = r.accept_invalid_cert;
      });
    },
    start_connecting-IsConnecting d r _,
    inl (
      addr,
      e,
      refl,
      subst
          (λ x.
            server_connect_in env x d r
            ≡ done (
              record (start_connecting d r) {
                connection_info = some (record {
                  socket_addr = addr;
                  hostname = r.host;
                  accept_invalid_cert = r.accept_invalid_cert;
                });
              },
              tcp_event_callback connect_callbacks,
            ))
          (sym on) (rw (e, server_connect_in) refl),
    ),
  )
]

stays_connecting :
    {x y : Server} (sb : ConnectingServer)
    → x ≡ Server.connecting sb
    → Moves x y
    → y ≡ Server.connecting sb
stays_connecting sb on (stays same) = cc
stays_connecting sb on (starts t a b) = cc
stays_connecting sb on (ends s a b) = cc
stays_connecting sb on (changes s users mute deaf a b) = cc

-- The command returns.
abbrev Returns : Reply → Type 0
Returns reply = Ends (λ r. Unit) reply

reload-Returns :
    (env : Env) (d : Daemon)
    → Decodes env.codecs
    → IsLoaded d.state
    → Returns (handle_command env d Command.config_reload)
unfolding handle_command
reload-Returns env d ok_files loaded =
    Ends->>= IsLoaded (λ r. Unit) (reload_config env d.state) _
      (reload_config-IsLoaded env d.state ok_files loaded) (λ s h. tt)

-- The commands while connecting, by the server that each finds.
connecting-Returns :
    (env : Env) (d : Daemon) (sb : ConnectingServer) (c : Command)
    → (c ≡ Command.config_reload → Decodes env.codecs)
    → IsLoaded d.state
    → d.state.server ≡ Server.connecting sb
    → Returns (handle_command env d c)
unfolding handle_command deafen_self deafen_self_in mute_self mute_self_in mute_other mute_other_in
    user_volume_set volume_set_in channel_join channel_join_in channel_list channel_list_in status
    status_in send_message send_message_in past_messages past_messages_in events server_connect
    server_connect_in server_disconnect server_disconnect_in
connecting-Returns env d sb (Command.channel_join name) ok_files loaded on =
    subst (λ x. Returns (channel_join_in env x d name)) (sym on) tt
connecting-Returns env d sb Command.channel_list ok_files loaded on =
    subst (λ x. Returns (channel_list_in x d)) (sym on) tt
connecting-Returns env d sb Command.config_reload ok_files loaded on =
    reload-Returns env d (ok_files refl) loaded
connecting-Returns env d sb (Command.deafen_self t) ok_files loaded on =
    subst (λ x. Returns (deafen_self_in x d t)) (sym on) tt
connecting-Returns env d sb (Command.events true) ok_files loaded on = tt
connecting-Returns env d sb (Command.events false) ok_files loaded on = tt
connecting-Returns env d sb (Command.input_volume_set v) ok_files loaded on = tt
connecting-Returns env d sb (Command.mute_other u t) ok_files loaded on =
    subst (λ x. Returns (mute_other_in x d u t)) (sym on) tt
connecting-Returns env d sb (Command.mute_self t) ok_files loaded on =
    subst (λ x. Returns (mute_self_in x d t)) (sym on) tt
connecting-Returns env d sb (Command.output_volume_set v) ok_files loaded on = tt
connecting-Returns env d sb (Command.past_messages b) ok_files loaded on =
    subst (λ x. Returns (past_messages_in x d b)) (sym on) tt
connecting-Returns env d sb Command.ping ok_files loaded on = tt
connecting-Returns env d sb (Command.send_message m t) ok_files loaded on =
    subst (λ x. Returns (send_message_in env x d m t)) (sym on) tt
connecting-Returns env d sb (Command.server_connect r) ok_files loaded on =
    subst (λ x. Returns (server_connect_in env x d r)) (sym on) tt
connecting-Returns env d sb Command.server_disconnect ok_files loaded on =
    subst (λ x. Returns (server_disconnect_in x d)) (sym on) tt
connecting-Returns env d sb (Command.server_status h p) ok_files loaded on = tt
connecting-Returns env d sb Command.status ok_files loaded on =
    subst (λ x. Returns (status_in x d)) (sym on) tt
connecting-Returns env d sb (Command.user_volume_set u v) ok_files loaded on =
    subst (λ x. Returns (volume_set_in x d u v)) (sym on) tt

-- While the daemon is connecting and the sounds are loaded, every command returns and leaves the
-- server as it is, so none ends the attempt; for ConfigReload, every sound file that opens is one that
-- can be read and unpacks to mono or stereo.
pub handle_command_while_connecting :
    (env : Env) (d : Daemon) (sb : ConnectingServer) (c : Command)
    → (c ≡ Command.config_reload → Decodes env.codecs)
    → IsLoaded d.state
    → d.state.server ≡ Server.connecting sb
    → Ends (λ reply. reply.0.state.server ≡ Server.connecting sb) (handle_command env d c)
handle_command_while_connecting env d sb c ok_files loaded on =
    Ends-WhenDone (λ reply. Unit) (λ reply. reply.0.state.server ≡ Server.connecting sb)
      (handle_command env d c) (connecting-Returns env d sb c ok_files loaded on)
      (WhenDone-imp (Follows d) (λ reply. reply.0.state.server ≡ Server.connecting sb)
        (handle_command env d c) (handle_command-Follows env d c)
        (λ reply f. stays_connecting sb on f.0))
