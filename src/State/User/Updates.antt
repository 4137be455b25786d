-- ===== src/State/User/Updates.antt =====
-- How the ways of changing a user relate: a new user, a message, a difference.
use mum.Common.{◌≡◌, Option, none, some, false, [], arith, refl}
use mum.Protocol.{UserState}
use mum.State.User.{User, new, parse_user_state, diff_from, apply_user_diff, update, update_some}

-- A user before any message.
abbrev pub blank : User
blank = record {
  channel = 0;
  comment = none;
  hash = none;
  name = [];
  priority_speaker = false;
  recording = false;
  suppress = false;
  self_mute = false;
  self_deaf = false;
  mute = false;
  deaf = false;
}

-- The field that counts when one message follows another.
abbrev pub later {ℓ} : {A : Type ℓ} → Option A → Option A → Option A
later first none = first
later first (some v) = some v

module _ {ℓ} {A : Type ℓ} where
  update-update_some : (old : A) (o : Option A) → update old (update_some none o) ≡ update old o
  update-update_some old none = refl
  update-update_some old (some v) = refl

  update_some-update_some :
      (old o : Option A) → update_some old (update_some none o) ≡ update_some old o
  update_some-update_some old none = refl
  update_some-update_some old (some v) = refl

-- Taking the difference that a message holds and applying it is the same as parsing the message.
pub apply_user_diff-diff_from :
    (u : User) (msg : UserState) → apply_user_diff u (diff_from msg) ≡ parse_user_state u msg
unfolding apply_user_diff diff_from parse_user_state
apply_user_diff-diff_from u msg = simp (update-update_some, update_some-update_some)

-- A new user is a blank one that the message has been parsed into.
pub new-parse_user_state : (msg : UserState) → new msg ≡ parse_user_state blank msg
unfolding new parse_user_state
new-parse_user_state msg = ground arith
