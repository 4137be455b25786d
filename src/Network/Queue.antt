-- ===== src/Network/Queue.antt =====
-- mum/src/network/tcp.rs, `TcpEventQueue`, with the closures that mum/src/command.rs registers in it.
pub mod Laws
pub mod Frame
use mum.Common.{
  ℕ, Bool, true, false, ◌&&◌, Option, get_or, List, [], ◌∷◌, ◌++◌, push, if◌then◌else◌, Outcome,
  done, panic, ◌>>=◌, Result,
}
use mum.Common.Dict.{Dict, get, insert}
use mum.Mumlib.Command.{Response}
use mum.State.Core.{Daemon, Env, SocketAddr}
use mum.State.Handle.{
  TcpEvent, TcpEventCallback, TcpEventSubscriberCallback, DisconnectedReason, invalid_tls, user,
  tcp_error,
}
use mum.State.Handle.Connect.{TcpEventData, run_callback, run_subscriber}

unfoldable pub reason_eq : DisconnectedReason → DisconnectedReason → Bool
reason_eq invalid_tls invalid_tls = true
reason_eq user user = true
reason_eq tcp_error tcp_error = true
reason_eq _ _ = false

-- The derived equality of the keys.
unfoldable pub event_eq : TcpEvent → TcpEvent → Bool
unfolding reason_eq
event_eq TcpEvent.connected TcpEvent.connected = true
event_eq (TcpEvent.disconnected a) (TcpEvent.disconnected b) = reason_eq a b
event_eq TcpEvent.text_message TcpEvent.text_message = true
event_eq _ _ = false

-- `impl From<&TcpEventData> for TcpEvent`.
unfoldable pub event_of : TcpEventData → TcpEvent
event_of (TcpEventData.connected res) = TcpEvent.connected
event_of (TcpEventData.disconnected reason) = TcpEvent.disconnected reason
event_of (TcpEventData.text_message msg) = TcpEvent.text_message

-- A registered closure: `group` is the `should_handle` that it shares with the others of one command,
-- `client` the sender for the answers of that command.
pub record Registered : Type 0 where
  pub group : ℕ
  pub generator : TcpEventCallback
  pub client : ℕ

pub record Subscribed : Type 0 where
  pub handler : TcpEventSubscriberCallback
  pub client : ℕ

-- The map of an event to its vector; an event without an entry has the empty one.
pub record TcpEventQueue : Type 0 where
  pub callbacks : TcpEvent → List Registered
  pub subscribers : TcpEvent → List Subscribed

-- What the closures act on: the daemon, the `should_handle` of each group, and what has been sent to
-- each client. A client that `listening` denies has dropped its receiver.
pub record World : Type 0 where
  pub daemon : Daemon
  pub flags : Dict Bool
  pub sent : List (ℕ × Response)
  pub listening : ℕ → Bool

unfoldable pub new : TcpEventQueue
new = record { callbacks = λ e. []; subscribers = λ e. [] }

unfoldable pub register_callback : TcpEventQueue → TcpEvent → Registered → TcpEventQueue
unfolding event_eq
register_callback q event c = record q {
  callbacks = λ e. if event_eq e event then push (q.callbacks e) c else q.callbacks e;
}

unfoldable pub register_subscriber : TcpEventQueue → TcpEvent → Subscribed → TcpEventQueue
unfolding event_eq
register_subscriber q event c = record q {
  subscribers = λ e. if event_eq e event then push (q.subscribers e) c else q.subscribers e;
}

-- `response_sender.send(response).unwrap()` for each response.
unfoldable pub send_all : World → ℕ → List Response → Outcome World
send_all w client [] = done w
send_all w client (r ∷ rs) =
    if w.listening client
    then send_all (record w { sent = push w.sent (client, r) }) client rs
    else panic

-- The closure around a generator: `should_handle.swap(false)`, then the answers.
unfoldable pub run_registered : Registered → TcpEventData → World → Outcome World
run_registered c fired w =
    let spent : World = record w { flags = insert w.flags c.group false } in
    if get_or (get w.flags c.group) false
    then (do
      responses ← run_callback w.daemon.state c.generator fired
      send_all spent c.client responses)
    else done spent

unfoldable pub each_callback : List Registered → TcpEventData → World → Outcome World
each_callback [] fired w = done w
each_callback (c ∷ cs) fired w = do v ← run_registered c fired w; each_callback cs fired v

-- A subscriber is kept if its answer could be sent.
unfoldable pub each_subscriber :
    Env → List Subscribed → TcpEventData → World → Outcome (List Subscribed × World)
each_subscriber env [] fired w = done ([], w)
each_subscriber env (s ∷ ss) fired w = do
  response ← run_subscriber env w.daemon.state s.handler fired
  let open_ : Bool = w.listening s.client in
      do
        (kept, v) ←
            each_subscriber env ss fired
              (if open_ then record w { sent = push w.sent (s.client, response) } else w)
        done (if open_ then s ∷ kept else kept, v)

unfoldable pub resolve :
    Env → TcpEventQueue → TcpEventData → World → Outcome (TcpEventQueue × World)
unfolding event_of event_eq
resolve env q fired w =
    let event = event_of fired in
    do
      v ← each_callback (q.callbacks event) fired w
      (kept, u) ← each_subscriber env (q.subscribers event) fired v
      done (
        record {
          callbacks = λ e. if event_eq e event then [] else q.callbacks e;
          subscribers = λ e. if event_eq e event then kept else q.subscribers e;
        },
        u,
      )
