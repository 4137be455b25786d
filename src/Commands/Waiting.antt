-- ===== src/Commands/Waiting.antt =====
-- The command loop and the event queue: what waits after `ServerConnect` and what is answered at once.
use mum.Common.{
  ◌∙◌, ◌+◌, ℕ, Text, ◌≡◌, ◌≢◌, sym, refl, true, some, none, List, ◌++◌, map, push, done, inl, inr,
  ==_refl,
}
use mum.Common.Dict.{get, insert, get-insert}
use mum.Mumlib.Command.{Command, ConnectRequest, Response}
use mum.State.Server.{Server}
use mum.State.Core.{Env, Daemon}
use mum.State.Handle.{ExecutionContext, TcpEvent, TcpEventCallback, DisconnectedReason}
use mum.State.Handle.All.{handle_command}
use mum.State.Handle.Connect.Laws.{IsConnecting, connect_callbacks, server_connect-IsConnecting}
use mum.Network.Queue.{register_callback, event_eq}
use mum.Network.Queue.Laws.{send_all-map}
use mum.Network.Listen.Answers.{login_callback}
use mum.Commands.{Loop, register_each, arrange, handle}

-- The daemon is connecting and the client waits for the login.
pub record Pending (l : Loop) (client : ℕ) (r : ConnectRequest) (m : Loop) : Type 0 where
  pub connecting : IsConnecting l.world.daemon r m.world.daemon
  pub callbacks :
      m.queue.callbacks TcpEvent.connected
      ≡ push (l.queue.callbacks TcpEvent.connected) (login_callback l.group client)
  pub rejects :
      m.queue.callbacks (TcpEvent.disconnected DisconnectedReason.invalid_tls)
      ≡ push (l.queue.callbacks (TcpEvent.disconnected DisconnectedReason.invalid_tls)) (record {
        group = l.group;
        generator = TcpEventCallback.answer_cert_reject;
        client = client;
      })
  pub subscribers : m.queue.subscribers ≡ l.queue.subscribers
  pub flag : get m.world.flags l.group ≡ some true
  pub quiet : m.world.sent ≡ l.world.sent
  pub listening : m.world.listening ≡ l.world.listening

-- The loop after the two closures are registered.
abbrev waiting : Loop → ℕ → Daemon → Loop
waiting l client e = record l {
  world = record (l.world) { daemon = e; flags = insert l.world.flags l.group true };
  queue = register_each l.group client connect_callbacks l.queue;
  group = l.group + 1;
}

waiting-Pending :
    (l : Loop) (client : ℕ) (r : ConnectRequest) (e : Daemon)
    → IsConnecting l.world.daemon r e
    → Pending l client r (waiting l client e)
unfolding register_each register_callback event_eq
waiting-Pending l client r e connecting = record {
  connecting = connecting;
  callbacks = refl;
  rejects = refl;
  subscribers = refl;
  flag = rw (get-insert, ==_refl l.group) refl;
  quiet = refl;
  listening = refl;
}

some-none : {a : Text} → some a ≢ none
some-none e = cc

-- `ServerConnect` while disconnected, of a host that resolves: no answer is sent yet, the daemon is
-- connecting, and two closures of one new group wait, for the login and for a certificate that is
-- refused.
pub handle-Pending :
    (env : Env) (l : Loop) (client : ℕ) (r : ConnectRequest) (addr : Text)
    → l.world.daemon.state.server ≡ Server.disconnected
    → env.resolve r.host r.port ≡ some addr
    → (m : Loop) × Pending l client r m × (handle env l client (Command.server_connect r) ≡ done m)
unfolding handle handle_command arrange
handle-Pending env l client r addr on found =
    let (e, connecting, branches) = server_connect-IsConnecting env l.world.daemon r on in
    elim branches [
      | inl (a, resolved, info, returns) ↦
          (waiting l client e, waiting-Pending l client r e connecting, rw returns refl)
      | inr (unresolved, info, returns) ↦ absurd (some-none (sym found ∙ unresolved))
    ]

-- A command that is answered at once: its client, if it listens, gets all its answers, in order, and
-- no closure is left waiting.
pub handle-now :
    (env : Env) (l : Loop) (client : ℕ) (command : Command) (e : Daemon) (responses : List Response)
    → handle_command env l.world.daemon command ≡ done (e, ExecutionContext.now responses)
    → l.world.listening client ≡ true
    → handle env l client command
      ≡ done (record l {
        world = record (l.world) {
          daemon = e;
          sent = l.world.sent ++ map (λ r. (client, r)) responses;
        };
      })
unfolding handle arrange
handle-now env l client command e responses returns on =
    rw (returns, send_all-map (record (l.world) { daemon = e }) client responses on) refl
