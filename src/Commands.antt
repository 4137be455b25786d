-- ===== src/Commands.antt =====
-- mum/src/command.rs: the loop that runs commands and arranges their answers.
pub mod Waiting
use mum.Common.{
  ℕ, Bool, true, Option, List, [], ◌∷◌, push, ◌+◌, ◌%◌, ◌^◌, Outcome, done, ◌>>=◌, Result, ok, err,
}
use mum.Common.Dict.{insert}
use mum.Mumlib.Error.{Error}
use mum.Mumlib.Command.{Command}
use mum.State.Core.{Daemon, Env, SocketAddr}
use mum.State.Handle.{ExecutionContext, TcpEvent, TcpEventCallback}
use mum.State.Handle.Connect.{ping_generator}
use mum.State.Handle.All.{handle_command}
use mum.Network.Queue.{World, TcpEventQueue, register_callback, register_subscriber, send_all}

-- `group` is the next `should_handle` to be made, `pings` the requests that wait for a pong, each
-- with its address and its client. The task that takes them runs as long as the daemon.
pub record Loop : Type 0 where
  pub world : World
  pub queue : TcpEventQueue
  pub group : ℕ
  pub ping_count : ℕ
  pub pings : List (ℕ × SocketAddr × ℕ)

unfoldable pub register_each :
    ℕ → ℕ → List (TcpEvent × TcpEventCallback) → TcpEventQueue → TcpEventQueue
register_each group client [] q = q
register_each group client ((event, generator) ∷ rest) q =
    register_each group client rest
      (register_callback q event (record { group = group; generator = generator; client = client }))

unfoldable pub request_ping : Loop → ℕ → Result SocketAddr Error → Outcome Loop
request_ping l client (ok addr) = done (record l {
  ping_count = (l.ping_count + 1) % 2 ^ 64;
  pings = push l.pings (l.ping_count, addr, client);
})
request_ping l client (err e) = do
  w ← send_all l.world client (err e ∷ [])
  done (record l { world = w })

unfoldable pub arrange : Env → Loop → ℕ → ExecutionContext → Outcome Loop
unfolding register_each request_ping
arrange env l client (ExecutionContext.tcp_event_callback callbacks) = done (record l {
  world = record (l.world) { flags = insert l.world.flags l.group true };
  queue = register_each l.group client callbacks l.queue;
  group = l.group + 1;
})
arrange env l client (ExecutionContext.tcp_event_subscriber event handler) = done (record l {
  queue = register_subscriber l.queue event (record { handler = handler; client = client });
})
arrange env l client (ExecutionContext.now responses) = do
  w ← send_all l.world client responses
  done (record l { world = w })
arrange env l client (ExecutionContext.ping host port) =
    request_ping l client (ping_generator env host port)

-- One turn of the loop, with a command of a client.
unfoldable pub handle : Env → Loop → ℕ → Command → Outcome Loop
handle env l client command = do
  (d, event) ← handle_command env l.world.daemon command
  arrange env (record l { world = record (l.world) { daemon = d } }) client event
