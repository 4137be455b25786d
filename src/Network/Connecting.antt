-- ===== src/Network/Connecting.antt =====
-- mum/src/network/tcp.rs, `handle`: how an attempt to connect ends when the certificate is refused.
pub mod Refused
use mum.Common.{Outcome}
use mum.State.Core.{StatePhase, Env, broadcast_phase}
use mum.State.Handle.{DisconnectedReason}
use mum.State.Handle.Connect.{TcpEventData}
use mum.Network.Queue.{TcpEventQueue, World, resolve}

-- The phase is broadcast and the closures run.
unfoldable pub tls_refused : Env → TcpEventQueue → World → Outcome (TcpEventQueue × World)
tls_refused env q w =
    let d = w.daemon in
    resolve env q (TcpEventData.disconnected DisconnectedReason.invalid_tls)
      (record w { daemon = record d { state = broadcast_phase d.state StatePhase.disconnected } })
