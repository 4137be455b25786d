-- ===== src/Network/Connecting/Refused.antt =====
-- What the client and the daemon are left with when the certificate is refused.
use mathlib.Core.Path.{subst}
use mum.Common.{◌≡◌, refl, sym, true, some, [], ◌∷◌, ◌++◌, err, Ends, Ends-imp}
use mum.Common.Dict.{get}
use mum.Mumlib.Error.{Error}
use mum.Mumlib.Command.{Command}
use mum.Audio.Effects.Complete.{Decodes}
use mum.State.Server.{Server, ConnectingServer}
use mum.State.Core.{StatePhase, Env, broadcast_phase}
use mum.State.Presence.Laws.{IsLoaded}
use mum.State.Handle.{DisconnectedReason, TcpEvent, TcpEventCallback}
use mum.State.Handle.All.{handle_command}
use mum.State.Handle.Connect.{TcpEventData, run_callback}
use mum.State.Handle.Connect.Laws.{handle_command_while_connecting}
use mum.Network.Queue.{
  Registered, TcpEventQueue, World, resolve, each_callback, each_subscriber, event_of,
}
use mum.Network.Queue.Laws.{first_answers}
use mum.Network.Connecting.{tls_refused}

abbrev refused : TcpEvent
refused = TcpEvent.disconnected DisconnectedReason.invalid_tls

-- The server of `after`'s daemon after one more command.
abbrev pub Stuck : Env → ConnectingServer → Command → TcpEventQueue × World → Type 0
Stuck env sb command after =
    Ends (λ reply. reply.0.state.server ≡ Server.connecting sb)
      (handle_command env after.1.daemon command)

-- The daemon is where it was but for the phase, and the client has the answer.
abbrev pub TurnedDown : World → Registered → TcpEventQueue × World → Type 0
TurnedDown w c after =
    (after.1.sent ≡ w.sent ++ (c.client, err Error.server_cert_reject) ∷ [])
    × (after.1.daemon.state ≡ broadcast_phase w.daemon.state StatePhase.disconnected)

module _ (env : Env) (q : TcpEventQueue) (w : World) (c : Registered) where
  tls_refused-TurnedDown :
      c.generator ≡ TcpEventCallback.answer_cert_reject
      → q.callbacks refused ≡ c ∷ []
      → q.subscribers refused ≡ []
      → get w.flags c.group ≡ some true
      → w.listening c.client ≡ true
      → Ends (TurnedDown w c) (tls_refused env q w)
  unfolding tls_refused resolve event_of each_callback each_subscriber broadcast_phase run_callback
  tls_refused-TurnedDown kind one none_there flag on =
      let v : World = record w {
        daemon = record (w.daemon) {
          state = broadcast_phase w.daemon.state StatePhase.disconnected;
        };
      } in
      rw
        (
          one,
          none_there,
          first_answers c (TcpEventData.disconnected DisconnectedReason.invalid_tls) v
              (err Error.server_cert_reject ∷ []) flag on (rw kind refl),
        )
        (refl, refl)

-- If a command waits for the answer to its attempt to connect and its client listens, a certificate
-- that is refused has the closures return, the client is told and the phase is broadcast. But the
-- server stays as it is: with the sounds loaded, every command after that, one to connect or to
-- disconnect included, returns and leaves it connecting; for ConfigReload, every sound file that opens
-- is one that can be read and unpacks to mono or stereo.
pub tls_refused-Stuck :
    (env : Env) (q : TcpEventQueue) (w : World) (c : Registered) (sb : ConnectingServer)
    (command : Command)
    → c.generator ≡ TcpEventCallback.answer_cert_reject
    → q.callbacks refused ≡ c ∷ []
    → q.subscribers refused ≡ []
    → get w.flags c.group ≡ some true
    → w.listening c.client ≡ true
    → (command ≡ Command.config_reload → Decodes env.codecs)
    → IsLoaded w.daemon.state
    → w.daemon.state.server ≡ Server.connecting sb
    → Ends (λ after. TurnedDown w c after × Stuck env sb command after) (tls_refused env q w)
unfolding broadcast_phase
tls_refused-Stuck env q w c sb command kind one none_there flag on ok_files loaded connecting =
    Ends-imp (TurnedDown w c) (λ after. TurnedDown w c after × Stuck env sb command after)
      (tls_refused env q w) (tls_refused-TurnedDown env q w c kind one none_there flag on)
      (λ after down. (
        down,
        handle_command_while_connecting env after.1.daemon sb command ok_files
            (subst IsLoaded (sym down.1) loaded) (rw down.1 connecting),
      ))
