-- ===== src/State/Handle/Mute.antt =====
-- The commands `DeafenSelf` and `MuteSelf`.
pub mod Changes
pub mod Laws
use mum.Common.{
  ℕ, Bool, true, false, not, differs, Option, none, some, is_some, [], Outcome, done, ◌>>=◌, ◌&&◌,
  ok, if◌then◌else◌,
}
use mum.Protocol.{UserState}
use mum.Mumlib.Error.{Error}
use mum.Mumlib.Command.{CommandResponse}
use mum.Audio.Effects.{NotificationEvents}
use mum.State.Server.{Server, ConnectedServer}
use mum.State.Core.{State, Daemon, Packet, play, set_server}
use mum.State.Handle.{Reply, now_one, now_err, send_packet}

-- The new `(muted, deafened)`, if anything changes: by the toggle and the old two.
unfoldable pub deafen_action : Option Bool → Bool → Bool → Option (Bool × Bool)
deafen_action (some false) false false = none
deafen_action (some false) false true = some (false, false)
deafen_action (some false) true false = none
deafen_action (some false) true true = some (true, false)
deafen_action (some true) false false = some (false, true)
deafen_action (some true) false true = none
deafen_action (some true) true false = some (true, true)
deafen_action (some true) true true = none
deafen_action none false false = some (false, true)
deafen_action none false true = some (false, false)
deafen_action none true false = some (true, true)
deafen_action none true true = some (true, false)

unfoldable pub mute_action : Option Bool → Bool → Bool → Option (Bool × Bool)
mute_action (some false) false false = none
mute_action (some false) false true = some (false, false)
mute_action (some false) true false = some (false, false)
mute_action (some false) true true = some (false, false)
mute_action (some true) false false = some (true, false)
mute_action (some true) false true = none
mute_action (some true) true false = none
mute_action (some true) true true = none
mute_action none false false = some (true, false)
mute_action none false true = some (false, false)
mute_action none true false = some (false, false)
mute_action none true true = some (false, false)

-- `msgs::UserState::new()`.
abbrev pub blank_message : UserState
blank_message = record {
  session = none;
  name = none;
  channel_id = none;
  mute = none;
  deaf = none;
  suppress = none;
  self_mute = none;
  self_deaf = none;
  comment = none;
  hash = none;
  priority_speaker = none;
  recording = none;
}

-- The sound of the change: one for the deafening, if that changes, or else one for the muting.
unfoldable pub play_change : State → ConnectedServer → Bool → Bool → Outcome State
play_change s server mute deafen =
    if differs server.deafened deafen
    then play s (if deafen then NotificationEvents.deafen else NotificationEvents.undeafen)
    else if differs server.muted mute
    then play s (if mute then NotificationEvents.mute else NotificationEvents.unmute)
    else done s

-- The field of the message for the muting, and that for the deafening.
unfoldable pub mute_field : ConnectedServer → Bool → Bool → Option Bool
mute_field server mute deafen =
    if differs server.muted mute
    then some mute
    else if not mute && (not deafen && server.deafened)
    then some false
    else none

unfoldable pub deaf_field : ConnectedServer → Bool → Option Bool
deaf_field server deafen = if differs server.deafened deafen then some deafen else none

-- The body of `if let Some((mute, deafen)) = action`.
unfoldable pub change_self : Daemon → ConnectedServer → Bool → Bool → Outcome Daemon
change_self d server mute deafen = do
  s ← play_change d.state server mute deafen
  let message = record blank_message {
    self_mute = mute_field server mute deafen;
    self_deaf = deaf_field server deafen;
  }
  done (
      send_packet
        (set_server (record d { state = s })
          (Server.connected (record server { muted = mute; deafened = deafen })))
        (Packet.user_state message))

pub response_of : (Bool → CommandResponse) → Option Bool → Option CommandResponse
response_of f none = none
response_of f (some b) = some (f b)

unfoldable pub deafen_connected : Daemon → ConnectedServer → Option Bool → Reply
unfolding response_of
deafen_connected d server toggle = elim (deafen_action toggle server.muted server.deafened) [
  | none ↦ now_one d (ok none)
  | some (mute, deafen) ↦ do
    e ← change_self d server mute deafen
    now_one e (ok (response_of CommandResponse.deafen_status (deaf_field server deafen)))
]

unfoldable pub mute_connected : Daemon → ConnectedServer → Option Bool → Reply
unfolding response_of
mute_connected d server toggle = elim (mute_action toggle server.muted server.deafened) [
  | none ↦ now_one d (ok none)
  | some (mute, deafen) ↦ do
    e ← change_self d server mute deafen
    now_one e (ok (response_of CommandResponse.mute_status (mute_field server mute deafen)))
]

unfoldable pub deafen_self_in : Server → Daemon → Option Bool → Reply
deafen_self_in (Server.connected server) d toggle = deafen_connected d server toggle
deafen_self_in _ d toggle = now_err d Error.disconnected

unfoldable pub deafen_self : Daemon → Option Bool → Reply
unfolding deafen_self_in
deafen_self d toggle = deafen_self_in d.state.server d toggle

unfoldable pub mute_self_in : Server → Daemon → Option Bool → Reply
mute_self_in (Server.connected server) d toggle = mute_connected d server toggle
mute_self_in _ d toggle = now_err d Error.disconnected

unfoldable pub mute_self : Daemon → Option Bool → Reply
unfolding mute_self_in
mute_self d toggle = mute_self_in d.state.server d toggle
