-- ===== src/State/Handle.antt =====
-- mum/src/state.rs, `handle_command`: the types that its parts share. The parts are the modules below,
-- one for each group of commands, and `All` is the `match` itself.
pub mod Mute
pub mod Others
pub mod Messages
pub mod Connect
pub mod All
use mum.Common.{ℕ, Text, Option, none, some, List, [], ◌∷◌, Outcome, done, Result, ok, err, push}
use mum.Mumlib.Error.{Error}
use mum.Mumlib.Command.{CommandResponse, Response}
use mum.State.Core.{Daemon, Packet}

-- mum/src/network/tcp.rs.
pub data DisconnectedReason : Type 0 where
  invalid_tls user tcp_error : DisconnectedReason

pub data TcpEvent : Type 0 where
  connected : TcpEvent
  disconnected : DisconnectedReason → TcpEvent
  text_message : TcpEvent

-- The closures that `handle_command` hands out, by what they do.
pub data TcpEventCallback : Type 0 where
  answer_connected answer_cert_reject : TcpEventCallback

pub data TcpEventSubscriberCallback : Type 0 where
  forward_message : TcpEventSubscriberCallback

pub data ExecutionContext : Type 0 where
  tcp_event_callback : List (TcpEvent × TcpEventCallback) → ExecutionContext
  tcp_event_subscriber : TcpEvent → TcpEventSubscriberCallback → ExecutionContext
  now : List Response → ExecutionContext
  ping : Text → ℕ → ExecutionContext

-- What a command comes to: the daemon after it, and how it is answered.
abbrev pub Reply : Type 0
Reply = Outcome (Daemon × ExecutionContext)

-- `now!`.
abbrev pub now_one : Daemon → Response → Reply
now_one d response = done (d, now (response ∷ []))

abbrev pub now_ok : Daemon → Reply
now_ok d = now_one d (ok none)

abbrev pub now_err : Daemon → Error → Reply
now_err d e = now_one d (err e)

-- `packet_sender.send(msg.into())`.
abbrev pub send_packet : Daemon → Packet → Daemon
send_packet d p = record d { packets = push d.packets p }
