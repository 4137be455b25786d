-- ===== src/Network/Voice.antt =====
-- mum/src/network/udp.rs, `listen` and `send_pings`: the pings that choose between UDP and TCP for
-- the voice.
pub mod Choice
use mum.Common.{
  ℕ, ◌+◌, ◌%◌, ◌^◌, ◌==◌, leb, ◌&&◌, Outcome, done, panic, ◌>>=◌, Bool, true, false, not, Option,
  some, none, List, [], ◌∷◌, push, if◌then◌else◌,
}
use mum.State.Core.{State, StatePhase, VoiceStreamType, broadcast_phase}

-- The packets that come in over UDP. The payload is opaque.
pub data UdpPacket : Type 0 where
  ping : ℕ → UdpPacket
  audio : ℕ → List ℕ → UdpPacket

-- `last_ping_recv` is shared by the two tasks, `last_send` belongs to `send_pings`; `sent` are the
-- timestamps of the pings that went out, `voice` is what the audio output was given to decode.
pub record UdpLink : Type 0 where
  pub state : State
  pub last_ping_recv : ℕ
  pub last_send : Option ℕ
  pub sent : List ℕ
  pub voice : List (VoiceStreamType × ℕ × List ℕ)

unfoldable pub start : State → UdpLink
start s = record { state = s; last_ping_recv = 0; last_send = none; sent = []; voice = [] }

-- One turn of `listen`; `none` is a packet that cannot be read.
unfoldable pub listen : UdpLink → Option UdpPacket → UdpLink
listen l none = l
listen l (some (ping timestamp)) = record l {
  state = broadcast_phase l.state (StatePhase.connected VoiceStreamType.udp);
  last_ping_recv = timestamp;
}
listen l (some (audio session_id payload)) = record l {
  voice = push l.voice (VoiceStreamType.udp, session_id, payload);
}

-- `last_send.is_some() && last_send.unwrap() != last_recv`.
abbrev pub unanswered : Option ℕ → ℕ → Bool
unanswered none received = false
unanswered (some sent) received = not (sent == received)

-- `last_recv + 1`; `checked` says whether the build checks overflow, as a debug build does.
unfoldable pub next_timestamp : Bool → ℕ → Outcome ℕ
next_timestamp checked last_recv =
    if checked && leb (2 ^ 64) (last_recv + 1) then panic else done ((last_recv + 1) % 2 ^ 64)

pub data UdpEvent : Type 0 where
  received : Option UdpPacket → UdpEvent
  ticked : Bool → UdpEvent

module _ (checked : Bool) where
  -- One turn of `send_pings`: the voice goes over TCP if the last ping was not the last to come back,
  -- and one more is sent, which may fail.
  unfoldable pub send_ping : UdpLink → Bool → Outcome UdpLink
  send_ping l sends =
      let chosen : State =
        if unanswered l.last_send l.last_ping_recv
        then broadcast_phase l.state (StatePhase.connected VoiceStreamType.tcp)
        else l.state in
      do
        timestamp ← next_timestamp checked l.last_ping_recv
        done (
            if sends
            then record l {
              state = chosen;
              last_send = some timestamp;
              sent = push l.sent timestamp;
            }
            else record l { state = chosen })

  unfoldable pub wake : UdpLink → UdpEvent → Outcome UdpLink
  unfolding listen send_ping
  wake l (received packet) = done (listen l packet)
  wake l (ticked sends) = send_ping l sends

  unfoldable pub run : UdpLink → List UdpEvent → Outcome UdpLink
  unfolding wake
  run l [] = done l
  run l (e ∷ es) = do m ← wake l e; run m es
