-- ===== src/State/Handle/Others/Laws.antt =====
-- Muting another user, and the errors of the commands on others.
use mathlib.Core.Path.{subst}
use mum.Common.{
  ℕ, ◌≡◌, sym, ◌≢◌, ◌↔◌, inl, inr, refl, Bool, true, false, differs, Text, text_eq, Option, none,
  some, [], ◌∷◌, All, Ends, arith, if◌then◌else◌, ◌==◌, ==_refl, Bool-cases, Option-cases,
}
use mum.Common.Dict.{Dict, get, insert, get-insert}
use mum.Mumlib.Command.{F32}
use mum.Audio.Output
use mum.Audio.Output.{AudioOutput, set_mute}
use mum.State.User.{User, set_suppressed}
use mum.State.Server.{Server, ConnectedServer}
use mum.State.Core.{Daemon}
use mum.State.Handle.Mute.Laws.{wanted}
use mum.State.Handle.Others.{find_user, suppress_action, mute_connected, mute_other, mute_other_in}

-- Whether the output drops the voice of a user.
abbrev pub muted_in : AudioOutput → ℕ → Bool
muted_in a id = elim (get a.user_volumes id) [ none ↦ false | some entry ↦ entry.1 ]

-- How loud the output plays a user.
abbrev pub volume_in : AudioOutput → ℕ → F32
volume_in a id = elim (get a.user_volumes id) [ none ↦ Output.one | some entry ↦ entry.0 ]

-- Setting the mute of a user sets just that: every volume and every other mute is as before.
pub set_mute-lookup :
    (a : AudioOutput) (id : ℕ) (mute : Bool) (j : ℕ)
    → (muted_in (set_mute a id mute) j ≡ (if id == j then mute else muted_in a j))
      × (volume_in (set_mute a id mute) j ≡ volume_in a j)
unfolding set_mute
set_mute-lookup a id mute j = ground (
  arith,
  get-insert a.user_volumes id (Output.one, mute) j,
  get-insert a.user_volumes id ((volume_in a id), mute) j,
)

-- The daemon after another user was muted: the user has the wanted flag, every other user and the
-- rest of the server are as before; if the flag changes, the output follows it.
pub record MutedOther (d : Daemon) (s : ConnectedServer) (id : ℕ) (user : User) (t : Option Bool)
    (e : Daemon) : Type 0 where
  pub users : Dict User
  pub server : e.state.server ≡ Server.connected (record s { users = users })
  pub at_id : get users id ≡ some (set_suppressed user (wanted t user.suppress))
  pub elsewhere : (j : ℕ) → j ≢ id → get users j ≡ get s.users j
  pub followed :
      differs user.suppress (wanted t user.suppress) ≡ true
      → muted_in e.state.audio_output id ≡ wanted t user.suppress
  pub packets : e.packets ≡ d.packets

suppress_action-none : (t : Option Bool) (b : Bool) → suppress_action t b ≡ none → wanted t b ≡ b
unfolding suppress_action
suppress_action-none t b h = ground arith

suppress_action-some :
    (t : Option Bool) (b action : Bool) → suppress_action t b ≡ some action → action ≡ wanted t b
unfolding suppress_action
suppress_action-some t b action h = ground arith

module _ (d : Daemon) (s : ConnectedServer) (username : Text) (t : Option Bool) where
  -- `MuteOther` of a user that is found sets the flag as asked for, and the flag alone.
  pub mute_other-MutedOther :
      (id : ℕ) (user : User)
      → d.state.server ≡ Server.connected s
      → find_user s.users username ≡ some (id, user)
      → get s.users id ≡ some user
      → Ends (λ r. MutedOther d s id user t r.0) (mute_other d username t)
  unfolding mute_other mute_connected set_suppressed
  mute_other-MutedOther id user on found here =
      subst (λ server. Ends (λ r. MutedOther d s id user t r.0) (mute_other_in server d username t))
        (sym on)
        (rw (found, mute_connected)
          (elim (Option-cases (suppress_action t user.suppress)) [
            | inl idle ↦ rw idle (record {
              users = s.users;
              server = on;
              at_id = rw (suppress_action-none t user.suppress idle) here;
              elsewhere = λ j ne. refl;
              followed = λ c. ground (arith, suppress_action-none t user.suppress idle);
              packets = refl;
            })
            | inr (action, act) ↦ rw act (record {
              users = insert s.users id (set_suppressed user action);
              server = refl;
              at_id =
                  rw (get-insert, ==_refl) (rw (suppress_action-some t user.suppress action act));
              elsewhere =
                  λ j ne. ground (arith, get-insert s.users id (set_suppressed user action) j);
              followed = λ c. ground (
                arith,
                (set_mute-lookup d.state.audio_output id action id).0,
                suppress_action-some t user.suppress action act,
              );
              packets = refl;
            })
          ]))

-- No user of the list has the name.
abbrev pub Unknown : Dict User → Text → Type 0
Unknown users username = All (λ e. text_eq e.1.name username ≡ false) users

find_user-eq-none :
    (users : Dict User) (username : Text) → Unknown users username → find_user users username ≡ none
unfolding find_user
find_user-eq-none [] username h = refl
find_user-eq-none ((id, u) ∷ users) username h = rw h.0 (find_user-eq-none users username h.1)

find_user-Unknown :
    (users : Dict User) (username : Text) → find_user users username ≡ none → Unknown users username
unfolding find_user
find_user-Unknown [] username h = tt
find_user-Unknown ((id, u) ∷ users) username h = elim (Bool-cases (text_eq u.name username)) [
  | inl hit ↦ absurd (ground arith)
  | inr miss ↦ (miss, find_user-Unknown users username (ground arith))
]

-- A user is not found exactly when no user on the roster has the name.
pub find_user-none_iff :
    (users : Dict User) (username : Text)
    → (find_user users username ≡ none) ↔ Unknown users username
find_user-none_iff users username =
    (find_user-Unknown users username, find_user-eq-none users username)
