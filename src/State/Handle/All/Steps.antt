-- ===== src/State/Handle/All/Steps.antt =====
-- How a command may change the server and the phase, and what that comes to for a state.
use mathlib.Core.Path.{subst₂}
use mum.Common.{
  ◌≡◌, sym, refl, Bool, Outcome, done, panic, overrun, ◌>>=◌, WhenDone, WhenDone->>=, arith,
}
use mum.Common.Dict.{Dict}
use mum.Mumlib.Config.{Config}
use mum.Mumlib.Command.{F32}
use mum.Audio.Effects.{NotificationEvents}
use mum.Audio.Output.{AudioOutput}
use mum.State.User.{User}
use mum.State.Server.{Server, ConnectingServer, ConnectedServer}
use mum.State.Core.{State, StatePhase, Daemon, Env, reload_config}
use mum.State.Core.Frame.{Same, play-Same, Agrees, Fits}
use mum.State.Handle.{ExecutionContext}
use mum.State.Handle.Mute.{play_change, change_self}

-- The change of the server that one command makes.
pub data Moves : Server → Server → Type 0 where
  stays : {a b : Server} → a ≡ b → Moves a b
  starts :
      (sb : ConnectingServer) {a b : Server}
      → a ≡ Server.disconnected
      → b ≡ Server.connecting sb
      → Moves a b
  ends :
      (s : ConnectedServer) {a b : Server}
      → a ≡ Server.connected s
      → b ≡ Server.disconnected
      → Moves a b
  changes :
      (s : ConnectedServer) (users : Dict User) (mute deaf : Bool) {a b : Server}
      → a ≡ Server.connected s
      → b ≡ Server.connected (record s { users = users; muted = mute; deafened = deaf })
      → Moves a b

-- A reply whose daemon comes from `d` by such a change, and fits if `d` does.
abbrev pub Follows : Daemon → Daemon × ExecutionContext → Type 0
Follows d r = Moves d.state.server r.0.state.server × (Fits d → Fits r.0)

pub same :
    (d : Daemon) {server : Server} {phase : StatePhase}
    → server ≡ d.state.server
    → phase ≡ d.state.phase
    → Moves d.state.server server × (Fits d → Agrees server phase)
same d s p = (stays (sym s), λ f. subst₂ Agrees (sym s) (sym p) f)

pub play_change-Same :
    (d : Daemon) (s : ConnectedServer) (mute deafen : Bool)
    → WhenDone (Same d.state) (play_change d.state s mute deafen)
unfolding play_change
play_change-Same d s mute deafen = ground (
  arith,
  play-Same d.state NotificationEvents.deafen,
  play-Same d.state NotificationEvents.undeafen,
  play-Same d.state NotificationEvents.mute,
  play-Same d.state NotificationEvents.unmute,
)

module _ (d : Daemon) (s : ConnectedServer) (on : d.state.server ≡ Server.connected s) where
  -- A change of the connected server that leaves the phase.
  pub changed :
      (users : Dict User) (mute deaf : Bool) (phase : StatePhase)
      → phase ≡ d.state.phase
      → Moves d.state.server
          (Server.connected (record s { users = users; muted = mute; deafened = deaf }))
        × (Fits d
            → Agrees
                (Server.connected (record s { users = users; muted = mute; deafened = deaf }))
                phase)
  changed users mute deaf phase eq =
      (changes s users mute deaf on refl, λ f. subst₂ Agrees on (sym eq) f)

  pub change_self-Follows :
      (mute deafen : Bool) (x : ExecutionContext)
      → WhenDone (Follows d) (change_self d s mute deafen >>= λ e. done (e, x))
  unfolding change_self
  change_self-Follows mute deafen x =
      WhenDone->>= (λ e. Follows d (e, x)) _ (change_self d s mute deafen) _
        (WhenDone->>= (Same d.state) _ (play_change d.state s mute deafen) _
          (play_change-Same d s mute deafen) (λ t eq. changed s.users mute deafen t.phase eq.1))
        (λ e f. f)

pub output-Same :
    (s : State) (config : Config) (input : F32) (m : Outcome AudioOutput)
    → WhenDone (Same s) (
        m >>= λ loaded.
        done (record s { config = config; audio_input = input; audio_output = loaded }))
output-Same s config input (done loaded) = (refl, refl)
output-Same s config input panic = tt
output-Same s config input overrun = tt

pub reload-Same : (env : Env) (s : State) → WhenDone (Same s) (reload_config env s)
unfolding reload_config
reload-Same env s = output-Same s _ _ _
