-- ===== src/Network/Listen/Laws.antt =====
-- What packets do to the server and the phase, and what they bring about.
use mathlib.Core.Path.{subst}
use mum.Common.{
  ◌≢◌, ◌≡◌, sym, refl, inl, inr, Bool, get_or, Bool-cases, Option-cases, WhenDone, WhenDone->>=,
  WhenDone-any, arith,
}
use mum.Protocol.{ChannelState, ChannelRemove, ServerSync, TextMessage}
use mum.State.Server
use mum.State.Server.{Server, ConnectingServer, ConnectedServer}
use mum.State.Core.{
  State, StatePhase, VoiceStreamType, Daemon, Env, play, broadcast_phase, initialized, push_event,
  register_message,
}
use mum.State.Core.Frame.{Same, play-Same, Fits, Agrees}
use mum.State.Presence.Frame.{user_state-Fits, remove_user-Fits}
use mum.Audio.Effects.{NotificationEvents}
use mum.State.Handle.Connect.{TcpEventData}
use mum.Network.Queue.Frame.{resolve-HasDaemon}
use mum.Network.Listen.{
  Cipher, ControlPacket, VoicePacket, RejectType, Link, with_daemon, fire, set_up_crypt,
  send_crypt_state, tunnelled, listen, hear, writer, sync_in, channel_state_in, channel_remove_in,
  count_ping, stream_gone,
}

hear-Same : (env : Env) (d : Daemon) (msg : TextMessage) → Same d.state (hear env d msg).state
unfolding hear push_event register_message
hear-Same env d msg = elim (Option-cases (writer d.state.server (get_or msg.actor 0))) [
  | inl e ↦ rw e (refl, refl)
  | inr (name, e) ↦ rw e (refl, refl)
]

Same-Fits : (d e : Daemon) → Same d.state e.state → Fits d → Fits e
Same-Fits d e (a, b) f = rw (a, b) f

channel_state-Fits :
    (server : Server) (d : Daemon) (msg : ChannelState)
    → d.state.server ≡ server
    → Fits d
    → Fits (channel_state_in server d msg)
unfolding channel_state_in
channel_state-Fits Server.disconnected d msg on f = f
channel_state-Fits (Server.connecting sb) d msg on f = subst (λ x. Agrees x d.state.phase) on f
channel_state-Fits (Server.connected s) d msg on f = f

channel_remove-Fits :
    (server : Server) (d : Daemon) (msg : ChannelRemove)
    → d.state.server ≡ server
    → Fits d
    → Fits (channel_remove_in server d msg)
unfolding channel_remove_in
channel_remove-Fits Server.disconnected d msg on f = f
channel_remove-Fits (Server.connecting sb) d msg on f = subst (λ x. Agrees x d.state.phase) on f
channel_remove-Fits (Server.connected s) d msg on f = subst (λ x. Agrees x d.state.phase) on f

abbrev synced : ConnectingServer → Daemon → ServerSync → State
synced sb d msg = record (d.state) {
  server = Server.connected (Server.server_sync sb msg);
  phase = StatePhase.connected VoiceStreamType.tcp;
}

sync-Fits :
    (server : Server) (d : Daemon) (msg : ServerSync)
    → Fits d
    → WhenDone Fits (sync_in server d msg)
unfolding sync_in initialized broadcast_phase
sync-Fits Server.disconnected d msg f = f
sync-Fits (Server.connecting sb) d msg f =
    WhenDone->>= (Same (synced sb d msg)) Fits
      (play (synced sb d msg) NotificationEvents.server_connect) _
      (play-Same (synced sb d msg) NotificationEvents.server_connect)
      (λ s k. rw (k.0, k.1) (VoiceStreamType.tcp, refl))
sync-Fits (Server.connected s) d msg f = f

disagrees :
    (server : Server) → server ≢ Server.disconnected → ¬ Agrees server StatePhase.disconnected
disagrees Server.disconnected other a = other refl
disagrees (Server.connecting sb) other a = cc
disagrees (Server.connected s) other a = ground (arith, a.1)

module _ {C : Type 0} (cipher : Cipher C) where
  abbrev pub LinkFits : Link cipher → Type 0
  LinkFits l = Fits l.world.daemon

  fire-LinkFits :
      (env : Env) (l : Link cipher) (fired : TcpEventData)
      → LinkFits l
      → WhenDone LinkFits (fire cipher env l fired)
  unfolding fire
  fire-LinkFits env l fired f =
      WhenDone->>= (λ r. r.1.daemon ≡ l.world.daemon) LinkFits _ _
        (resolve-HasDaemon l.world.daemon env l.queue fired l.world refl)
        (λ r k. subst Fits (sym k) f)

  crypt-LinkFits : (l : Link cipher) → LinkFits l → WhenDone LinkFits (send_crypt_state cipher l)
  unfolding send_crypt_state
  crypt-LinkFits l f = elim (Bool-cases l.crypt_sender) [
    | inl there ↦
        rw there (elim (Option-cases l.crypt_state) [ inl e ↦ rw e tt | inr (c, e) ↦ rw e f ])
    | inr gone ↦ rw gone f
  ]

  -- A packet that `listen` handles keeps the phase that of the server.
  pub listen-LinkFits :
      (env : Env) (checked : Bool) (l : Link cipher) (packet : ControlPacket)
      → LinkFits l
      → WhenDone LinkFits (listen cipher env checked l packet)
  unfolding listen set_up_crypt tunnelled
  listen-LinkFits env checked l (ControlPacket.text_message msg) f =
      fire-LinkFits env _ _ (
        Same-Fits l.world.daemon (hear env l.world.daemon msg) (hear-Same env l.world.daemon msg) f)
  listen-LinkFits env checked l (ControlPacket.crypt_setup k c s) f = ground arith
  listen-LinkFits env checked l (ControlPacket.server_sync msg) f =
      WhenDone->>= LinkFits LinkFits _ _ (crypt-LinkFits l f) (λ m g.
        WhenDone->>= Fits LinkFits _ _ (sync-Fits m.world.daemon.state.server m.world.daemon msg g)
          (λ d h. fire-LinkFits env (with_daemon cipher m d) _ h))
  listen-LinkFits env checked l (ControlPacket.reject RejectType.wrong_server_pw) f =
      fire-LinkFits env l _ f
  listen-LinkFits env checked l (ControlPacket.reject RejectType.other_reason) f = f
  listen-LinkFits env checked l (ControlPacket.user_state msg) f =
      WhenDone->>= Fits LinkFits _ _ (user_state-Fits env l.world.daemon msg f) (λ d g. g)
  listen-LinkFits env checked l (ControlPacket.user_remove msg) f =
      WhenDone->>= Fits LinkFits _ _ (remove_user-Fits env l.world.daemon msg f) (λ d g. g)
  listen-LinkFits env checked l (ControlPacket.channel_state msg) f =
      channel_state-Fits l.world.daemon.state.server l.world.daemon msg refl f
  listen-LinkFits env checked l (ControlPacket.channel_remove msg) f =
      channel_remove-Fits l.world.daemon.state.server l.world.daemon msg refl f
  listen-LinkFits env checked l (ControlPacket.udp_tunnel VoicePacket.ping) f = f
  listen-LinkFits env checked l (ControlPacket.udp_tunnel (VoicePacket.audio i p)) f = f
  listen-LinkFits env checked l (ControlPacket.ping late lost resync) f =
      WhenDone-any LinkFits (count_ping checked l.pings late lost resync) _ (λ p. f)
  listen-LinkFits env checked l ControlPacket.unhandled f = f

  -- When the stream is gone, the daemon keeps its server and tells the other tasks that it is
  -- disconnected, so the phase does not fit the server unless the server was disconnected already.
  stream_gone_lem :
      (l : Link cipher)
      → l.world.daemon.state.server ≢ Server.disconnected
      → (l.world.daemon.state.server ≡ (stream_gone cipher l).world.daemon.state.server)
        × ¬ LinkFits (stream_gone cipher l)
  unfolding stream_gone broadcast_phase
  stream_gone_lem l other = (refl, λ f. disagrees l.world.daemon.state.server other f)
