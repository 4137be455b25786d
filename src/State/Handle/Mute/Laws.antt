-- ===== src/State/Handle/Mute/Laws.antt =====
-- What muting and deafening oneself comes to.
use mathlib.Core.Path.{subst, subst₂}
use mum.Common.{
  ◌≡◌, sym, inl, inr, refl, Bool, true, not, differs, ◌||◌, Option, none, some, [], ◌∷◌, Ends,
  Ends->>=, ok, arith, if◌then◌else◌, Option-cases,
}
use mum.Mumlib.Command.{CommandResponse}
use mum.State.Server.{Server, ConnectedServer}
use mum.State.Core.{Daemon}
use mum.State.Presence.Laws.{IsLoaded}
use mum.State.Handle.{ExecutionContext, now}
use mum.State.Handle.Mute.{
  deafen_action, mute_action, mute_field, deaf_field, change_self, deafen_connected, mute_connected,
  deafen_self, deafen_self_in, mute_self, mute_self_in, response_of,
}
use mum.State.Handle.Mute.Changes.{Voice, change_self-Voice, unchanged}

-- What a toggle asks for: the value it gives, or the opposite of the present one.
abbrev pub wanted : Option Bool → Bool → Bool
wanted none b = not b
wanted (some c) b = c

-- The daemon sends no voice while muted or deafened.
abbrev pub silent : Bool → Bool → Bool
silent muted deafened = muted || deafened

-- The tables.
deafen_action-none : (t : Option Bool) (m f : Bool) → deafen_action t m f ≡ none → wanted t f ≡ f
unfolding deafen_action
deafen_action-none t m f h = ground arith

deafen_action-some :
    (t : Option Bool) (m f mute deafen : Bool)
    → deafen_action t m f ≡ some (mute, deafen)
    → (mute ≡ m) × (deafen ≡ wanted t f) × (differs f deafen ≡ true)
unfolding deafen_action
deafen_action-some t m f mute deafen h = ground arith

mute_action-none :
    (t : Option Bool) (m f : Bool) → mute_action t m f ≡ none → wanted t (silent m f) ≡ silent m f
unfolding mute_action
mute_action-none t m f h = ground arith

-- The new state of our own voice for a muting: silent as wanted, deafened only if it was and silence
-- is wanted, and as before if it was silent as wanted already.
pub record Muted (t : Option Bool) (m f mute deafen : Bool) : Type 0 where
  pub silence : silent mute deafen ≡ wanted t (silent m f)
  pub deafening : deafen ≡ true → (f ≡ true) × (wanted t (silent m f) ≡ true)
  pub idle : silent m f ≡ wanted t (silent m f) → (mute ≡ m) × (deafen ≡ f)

mute_action-some :
    (t : Option Bool) (m f mute deafen : Bool)
    → mute_action t m f ≡ some (mute, deafen)
    → Muted t m f mute deafen × ((mute ≡ m) → (deafen ≡ f) → ⊥)
unfolding mute_action
mute_action-some t m f mute deafen h = (
  record { silence = ground arith; deafening = λ e. ground arith; idle = λ e. ground arith },
  λ a b. ground arith,
)

-- How the daemon answers: the new value, if it changed.
abbrev pub answer : (Bool → CommandResponse) → Option Bool → ExecutionContext
answer f new = now (ok (response_of f new) ∷ [])

deaf_answer :
    (s : ConnectedServer) (target deafen : Bool)
    → deafen ≡ target
    → differs s.deafened deafen ≡ true
    → answer CommandResponse.deafen_status (deaf_field s deafen)
      ≡ now (
          ok (
            if differs s.deafened target then some (CommandResponse.deafen_status target) else none)
          ∷ [])
unfolding deaf_field response_of
deaf_answer s target deafen e h = ground arith

mute_answer :
    (s : ConnectedServer) (t : Option Bool) (mute deafen : Bool)
    → mute_action t s.muted s.deafened ≡ some (mute, deafen)
    → answer CommandResponse.mute_status (mute_field s mute deafen)
      ≡ answer CommandResponse.mute_status
          (if differs (silent s.muted s.deafened) (silent mute deafen) then some mute else none)
unfolding mute_field mute_action
mute_answer s t mute deafen act = ground arith

module _ (d : Daemon) (s : ConnectedServer) (t : Option Bool) where
  abbrev pub Deafens : Daemon × ExecutionContext → Type 0
  Deafens r =
      Voice d s r.0 s.muted (wanted t s.deafened)
      × (r.1
          ≡ now (
              ok (
                if differs s.deafened (wanted t s.deafened)
                then some (CommandResponse.deafen_status (wanted t s.deafened))
                else none)
              ∷ []))

  -- The muting in the answer to a change of the silence.
  abbrev pub Mutes : Daemon × ExecutionContext → Type 0
  Mutes r =
      (mute : Bool) × (deafen : Bool) × Muted t s.muted s.deafened mute deafen
      × Voice d s r.0 mute deafen
      × (r.1
          ≡ answer CommandResponse.mute_status (
              if differs (silent s.muted s.deafened) (silent mute deafen) then some mute else none))

  module _ (loaded : IsLoaded d.state) (on : d.state.server ≡ Server.connected s) where
    deafen_connected-Deafens : Ends Deafens (deafen_connected d s t)
    unfolding deafen_connected
    deafen_connected-Deafens = elim (Option-cases (deafen_action t s.muted s.deafened)) [
      | inl idle ↦
          let same = deafen_action-none t s.muted s.deafened idle in
          rw (idle, deafen_connected) (rw same (unchanged d s on, ground arith))
      | inr ((mute, deafen), act) ↦
          let (kept, new, changed) = deafen_action-some t s.muted s.deafened mute deafen act in
          rw (act, deafen_connected)
            (Ends->>= (λ e. Voice d s e mute deafen) Deafens (change_self d s mute deafen) _
              (change_self-Voice d loaded s mute deafen (λ a b. ground arith))
              (λ e v.
                (subst₂ (λ m f. Voice d s e m f) kept new v, deaf_answer s _ deafen new changed)))
    ]

    mute_connected-Mutes : Ends Mutes (mute_connected d s t)
    unfolding mute_connected
    mute_connected-Mutes = elim (Option-cases (mute_action t s.muted s.deafened)) [
      | inl idle ↦
          let same = mute_action-none t s.muted s.deafened idle in
          rw (idle, mute_connected)
            (
              s.muted,
              s.deafened,
              record {
                silence = sym same;
                deafening = λ e. (e, ground arith);
                idle = λ e. (refl, refl);
              },
              unchanged d s on,
              ground arith,
            )
      | inr ((mute, deafen), act) ↦
          let (muted, new) = mute_action-some t s.muted s.deafened mute deafen act in
          rw (act, mute_connected)
            (Ends->>= (λ e. Voice d s e mute deafen) Mutes (change_self d s mute deafen) _
              (change_self-Voice d loaded s mute deafen new)
              (λ e v. (mute, deafen, muted, v, mute_answer s t mute deafen act)))
    ]

  -- `DeafenSelf` while connected, with the sounds loaded, returns. It leaves us deafened as asked for
  -- (the opposite of before without a toggle) and muted as before; a packet goes out exactly when that
  -- changes something and holds the change; the answer is the deafening if it changed.
  pub deafen_self-Deafens :
      IsLoaded d.state → d.state.server ≡ Server.connected s → Ends Deafens (deafen_self d t)
  unfolding deafen_self
  deafen_self-Deafens loaded on =
      subst (λ server. Ends Deafens (deafen_self_in server d t)) (sym on)
        (deafen_connected-Deafens loaded on)

  -- `MuteSelf` while connected, with the sounds loaded, returns. Afterwards we are silent, that is
  -- muted or deafened, as asked for (the opposite of before without a toggle); we are deafened only if
  -- we were and silence is asked for; if we were silent as asked for, nothing changes. A packet goes
  -- out exactly when the state changes and holds the change; the answer is the muting if our silence
  -- changed.
  pub mute_self-Mutes :
      IsLoaded d.state → d.state.server ≡ Server.connected s → Ends Mutes (mute_self d t)
  unfolding mute_self
  mute_self-Mutes loaded on =
      subst (λ server. Ends Mutes (mute_self_in server d t)) (sym on)
        (mute_connected-Mutes loaded on)
