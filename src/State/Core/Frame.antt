-- ===== src/State/Core/Frame.antt =====
-- The server and the phase of a state: which operations leave them alone, and when they agree.
use mum.Common.{◌≡◌, refl, Option-cases, inl, inr, WhenDone}
use mum.Common.Dict.{get}
use mum.Audio.Effects.{NotificationEvents, index}
use mum.Audio.Output.{play_effect}
use mum.State.Server.{Server}
use mum.State.Core.{State, StatePhase, VoiceStreamType, Daemon, play}

abbrev pub Same : State → State → Type 0
Same s t = (t.server ≡ s.server) × (t.phase ≡ s.phase)

-- The sound of a state leaves its server and phase.
pub play-Same : (s : State) (effect : NotificationEvents) → WhenDone (Same s) (play s effect)
unfolding play play_effect
play-Same s effect = elim (Option-cases (get s.audio_output.sounds (index effect))) [
  | inl e ↦ rw e tt
  | inr (samples, e) ↦ rw e (refl, refl)
]

-- The phase that tasks see is that of the server.
abbrev pub Agrees : Server → StatePhase → Type 0
Agrees Server.disconnected phase = phase ≡ StatePhase.disconnected
Agrees (Server.connecting sb) phase = phase ≡ StatePhase.connecting
Agrees (Server.connected s) phase = (v : VoiceStreamType) × (phase ≡ StatePhase.connected v)

abbrev pub Fits : Daemon → Type 0
Fits d = Agrees d.state.server d.state.phase
