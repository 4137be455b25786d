-- ===== src/State/Handle/Connect.antt =====
-- The commands `ServerConnect`, `ServerDisconnect` and `ServerStatus`, and the closures that answer
-- them later.
pub mod Laws
use mum.Common.{
  ℕ, Text, text, show, Bool, Option, none, some, get_or, List, [], ◌∷◌, ◌++◌, Outcome, done, panic,
  unwrap, ◌>>=◌, Result, ok, err,
}
use mum.Protocol.{ServerSync, TextMessage}
use mum.Mumlib.Error.{Error}
use mum.Mumlib.Command.{CommandResponse, ConnectRequest, Response}
use mum.Audio.Effects.{NotificationEvents}
use mum.State.Server
use mum.State.Server.{Server}
use mum.State.Core.{
  State, StatePhase, Daemon, Env, SocketAddr, set_server, play, broadcast_phase, get_user_name,
}
use mum.State.Handle.{
  ExecutionContext, ping, tcp_event_callback, TcpEvent, TcpEventCallback,
  TcpEventSubscriberCallback, DisconnectedReason, Reply, now_one, now_ok, now_err,
}
use mum.State.Handle.Others.{server_from}

-- The server and the phase, which change before the address is looked up.
unfoldable pub start_connecting : Daemon → ConnectRequest → Daemon
start_connecting d r =
    let server = Server.new (r.host ++ (text ":" ++ show r.port)) r.username r.password in
    let e = set_server d (Server.connecting server) in
    record e { state = broadcast_phase e.state StatePhase.connecting }

unfoldable pub server_connect_in : Env → Server → Daemon → ConnectRequest → Reply
server_connect_in env Server.disconnected d r =
    let e = start_connecting d r in
    elim (env.resolve r.host r.port) [
      | none ↦ now_err e (Error.invalid_server_addr r.host r.port)
      | some socket_addr ↦ done (
        record e {
          connection_info = some (record {
            socket_addr = socket_addr;
            hostname = r.host;
            accept_invalid_cert = r.accept_invalid_cert;
          });
        },
        tcp_event_callback (
            (TcpEvent.connected, TcpEventCallback.answer_connected)
            ∷ (
              TcpEvent.disconnected DisconnectedReason.invalid_tls,
              TcpEventCallback.answer_cert_reject,
            )
            ∷ []),
      )
    ]
server_connect_in env _ d r = now_err d Error.disconnected

unfoldable pub server_connect : Env → Daemon → ConnectRequest → Reply
unfolding server_connect_in
server_connect env d r = server_connect_in env d.state.server d r

unfoldable pub server_disconnect_in : Server → Daemon → Reply
server_disconnect_in (Server.connected s) d =
    let e = set_server d Server.disconnected in
    do
      t ←
          play (broadcast_phase e.state StatePhase.disconnected)
            NotificationEvents.server_disconnect
      now_ok (record e { state = t })
server_disconnect_in _ d = now_err d Error.disconnected

unfoldable pub server_disconnect : Daemon → Reply
unfolding server_disconnect_in
server_disconnect d = server_disconnect_in d.state.server d

-- A pong, as the ping protocol gives it.
pub record PongPacket : Type 0 where
  pub id : ℕ
  pub version : ℕ
  pub users : ℕ
  pub max_users : ℕ
  pub bandwidth : ℕ

-- The two closures of `ServerStatus`.
unfoldable pub ping_generator : Env → Text → ℕ → Result SocketAddr Error
ping_generator env host port = elim (env.resolve host port) [
  | none ↦ err (Error.invalid_server_addr host port)
  | some addr ↦ ok addr
]

unfoldable pub ping_converter : Option PongPacket → Response
ping_converter none = ok none
ping_converter (some p) =
    ok (some (CommandResponse.server_status p.version p.users p.max_users p.bandwidth))

-- mum/src/network/tcp.rs.
pub data TcpEventData : Type 0 where
  connected : Result ServerSync Error → TcpEventData
  disconnected : DisconnectedReason → TcpEventData
  text_message : TextMessage → TcpEventData

-- The closure that runs when the client is connected: it shows the server as it is by then.
unfoldable pub connected_answer : Server → Result ServerSync Error → Outcome (List Response)
connected_answer server (err e) = done (err e ∷ [])
connected_answer (Server.connected s) (ok msg) = do
  server_state ← server_from s
  done (ok (some (CommandResponse.server_connect msg.welcome_text server_state)) ∷ [])
connected_answer _ (ok msg) = panic

unfoldable pub run_callback : State → TcpEventCallback → TcpEventData → Outcome (List Response)
unfolding connected_answer
run_callback state TcpEventCallback.answer_connected (connected res) =
    connected_answer state.server res
run_callback state TcpEventCallback.answer_connected _ = panic
run_callback state TcpEventCallback.answer_cert_reject _ = done (err Error.server_cert_reject ∷ [])

-- The closure that forwards messages.
unfoldable pub run_subscriber :
    Env → State → TcpEventSubscriberCallback → TcpEventData → Outcome Response
run_subscriber env state TcpEventSubscriberCallback.forward_message (text_message a) = do
  name ← unwrap (get_user_name state (get_or a.actor 0))
  done (ok (some (CommandResponse.past_message env.now a.message name)))
run_subscriber env state TcpEventSubscriberCallback.forward_message _ = panic
