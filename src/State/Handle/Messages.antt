-- ===== src/State/Handle/Messages.antt =====
-- The commands `SendMessage`, `PastMessages` and `Events`.
pub mod Laws
use mum.Common.{
  ℕ, Text, Bool, true, false, Option, none, some, List, [], ◌∷◌, map, push, Outcome, done, panic,
  unwrap, ◌>>=◌, Result, ok, err, if◌then◌else◌,
}
use mum.Protocol.{TextMessage}
use mum.Mumlib.Error.{Error}
use mum.Mumlib.Event.{MumbleEvent}
use mum.Mumlib.Command.{CommandResponse, Response, ChannelTarget, MessageTarget}
use mum.State.Server.{Server, ConnectedServer, channel_name, current_channel}
use mum.State.Core.{State, Daemon, Env, Packet, get_user_name}
use mum.State.Handle.{
  ExecutionContext, now, tcp_event_subscriber, TcpEvent, forward_message, Reply, now_one, now_ok,
  now_err, send_packet,
}
use mum.State.Handle.Others.{find_user}

-- The channel of a target, or the error that ends the command.
unfoldable pub target_id : Env → ConnectedServer → ChannelTarget → Outcome (Result ℕ Error)
target_id env s ChannelTarget.current = do here ← current_channel s; done (ok here.0)
target_id env s (ChannelTarget.named name) = do
  named ← channel_name env.to_lowercase s.channels name
  done (elim named [ ok (id, c) ↦ ok id | err e ↦ err (Error.channel_identifier_error name e) ])

abbrev pub add_channel : TextMessage → Bool → ℕ → TextMessage
add_channel msg true id = record msg { tree_id = push msg.tree_id id }
add_channel msg false id = record msg { channel_id = push msg.channel_id id }

-- The two loops over the targets; the first that fails ends the command.
unfoldable pub add_channels :
    Env
    → ConnectedServer
    → TextMessage
    → List (ChannelTarget × Bool)
    → Outcome (Result TextMessage Error)
add_channels env s msg [] = done (ok msg)
add_channels env s msg ((target, recursive) ∷ targets) = do
  found ← target_id env s target
  elim found [
    | ok id ↦ add_channels env s (add_channel msg recursive id) targets
    | err e ↦ done (err e)
  ]

unfoldable pub add_users : ConnectedServer → TextMessage → List Text → Result TextMessage Error
add_users s msg [] = ok msg
add_users s msg (name ∷ names) = elim (find_user s.users name) [
  | none ↦ err (Error.invalid_username name)
  | some (id, u) ↦ add_users s (record msg { session = push msg.session id }) names
]

-- `msgs::TextMessage::new()` with the message set.
abbrev pub text_to_send : Text → TextMessage
text_to_send message = record {
  actor = none;
  session = [];
  channel_id = [];
  tree_id = [];
  message = message;
}

unfoldable pub addressed :
    Env → ConnectedServer → Text → MessageTarget → Outcome (Result TextMessage Error)
addressed env s message (MessageTarget.channel channels) =
    add_channels env s (text_to_send message) channels
addressed env s message (MessageTarget.user names) = done (add_users s (text_to_send message) names)

unfoldable pub send_made : Daemon → Result TextMessage Error → Reply
send_made d (ok msg) = now_ok (send_packet d (Packet.text_message msg))
send_made d (err e) = now_err d e

unfoldable pub send_message_in : Env → Server → Daemon → Text → MessageTarget → Reply
send_message_in env (Server.connected s) d message targets = do
  made ← addressed env s message targets
  send_made d made
send_message_in env _ d message targets = now_err d Error.disconnected

unfoldable pub send_message : Env → Daemon → Text → MessageTarget → Reply
unfolding send_message_in
send_message env d message targets = send_message_in env d.state.server d message targets

-- The stored messages with the names of their senders.
unfoldable pub past : State → List (ℕ × Text × ℕ) → Outcome (List Response)
past s [] = done []
past s ((timestamp, message, user) ∷ rest) = do
  name ← unwrap (get_user_name s user)
  responses ← past s rest
  done (ok (some (CommandResponse.past_message timestamp message name)) ∷ responses)

-- `std::mem::take` empties the buffer.
unfoldable pub past_messages_in : Server → Daemon → Bool → Reply
past_messages_in (Server.connected s) d true =
    done (d, tcp_event_subscriber TcpEvent.text_message forward_message)
past_messages_in (Server.connected s) d false = do
  responses ← past d.state d.state.message_buffer
  done (record d { state = record (d.state) { message_buffer = [] } }, now responses)
past_messages_in _ d block = now_err d Error.disconnected

unfoldable pub past_messages : Daemon → Bool → Reply
unfolding past_messages_in
past_messages d block = past_messages_in d.state.server d block

abbrev pub event_response : MumbleEvent → Response
event_response e = ok (some (CommandResponse.event e))

unfoldable pub events : Daemon → Bool → Reply
events d true = now_err d Error.unimplemented
events d false = done (d, now (map event_response d.state.events))
