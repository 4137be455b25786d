-- ===== src/State/User.antt =====
-- mum/src/state/user.rs: what the daemon knows of a user, and how messages change it.
pub mod Updates
use mum.Common.{ℕ, Text, Bool, false, Option, some, none, is_some, get_or, ◌&&◌, if◌then◌else◌, []}
use mum.Protocol.{UserState}
use mum.Mumlib.Tree

pub record User : Type 0 where
  pub channel : ℕ
  pub comment : Option Text
  pub hash : Option Text
  pub name : Text
  pub priority_speaker : Bool
  pub recording : Bool
  pub suppress : Bool
  pub self_mute : Bool
  pub self_deaf : Bool
  pub mute : Bool
  pub deaf : Bool

-- `msg.has_x() && msg.get_x()`.
abbrev flag : Option Bool → Bool
flag field = is_some field && get_or field false

unfoldable pub new : UserState → User
new msg = record {
  channel = get_or msg.channel_id 0;
  comment = msg.comment;
  hash = msg.hash;
  name = get_or msg.name [];
  priority_speaker = flag msg.priority_speaker;
  recording = flag msg.recording;
  suppress = flag msg.suppress;
  self_mute = flag msg.self_mute;
  self_deaf = flag msg.self_deaf;
  mute = flag msg.mute;
  deaf = flag msg.deaf;
}

-- `if msg.has_x() { self.x = msg.get_x() }`, and the same with `Some` around the new value.
abbrev pub update {ℓ} : {A : Type ℓ} → A → Option A → A
update old none = old
update old (some v) = v

abbrev pub update_some {ℓ} : {A : Type ℓ} → Option A → Option A → Option A
update_some old none = old
update_some old (some v) = some v

unfoldable pub parse_user_state : User → UserState → User
parse_user_state u msg = record {
  channel = update u.channel msg.channel_id;
  comment = update_some u.comment msg.comment;
  hash = update_some u.hash msg.hash;
  name = update u.name msg.name;
  priority_speaker = update u.priority_speaker msg.priority_speaker;
  recording = update u.recording msg.recording;
  suppress = update u.suppress msg.suppress;
  self_mute = update u.self_mute msg.self_mute;
  self_deaf = update u.self_deaf msg.self_deaf;
  mute = update u.mute msg.mute;
  deaf = update u.deaf msg.deaf;
}

pub record UserDiff : Type 0 where
  pub comment : Option Text
  pub hash : Option Text
  pub name : Option Text
  pub priority_speaker : Option Bool
  pub recording : Option Bool
  pub suppress : Option Bool
  pub self_mute : Option Bool
  pub self_deaf : Option Bool
  pub mute : Option Bool
  pub deaf : Option Bool
  pub channel_id : Option ℕ

-- `UserDiff::new`, and `From<msgs::UserState>`: each assignment under its `has_…`.
diff_new : UserDiff
diff_new = record {
  comment = none;
  hash = none;
  name = none;
  priority_speaker = none;
  recording = none;
  suppress = none;
  self_mute = none;
  self_deaf = none;
  mute = none;
  deaf = none;
  channel_id = none;
}

pub diff_from : UserState → UserDiff
unfolding diff_new
diff_from msg = record {
  comment = update_some diff_new.comment msg.comment;
  hash = update_some diff_new.hash msg.hash;
  name = update_some diff_new.name msg.name;
  priority_speaker = update_some diff_new.priority_speaker msg.priority_speaker;
  recording = update_some diff_new.recording msg.recording;
  suppress = update_some diff_new.suppress msg.suppress;
  self_mute = update_some diff_new.self_mute msg.self_mute;
  self_deaf = update_some diff_new.self_deaf msg.self_deaf;
  mute = update_some diff_new.mute msg.mute;
  deaf = update_some diff_new.deaf msg.deaf;
  channel_id = update_some diff_new.channel_id msg.channel_id;
}

-- The order of the source: the channel is set last.
pub apply_user_diff : User → UserDiff → User
apply_user_diff u diff =
    let v : User = record u {
      comment = update_some u.comment diff.comment;
      hash = update_some u.hash diff.hash;
      name = update u.name diff.name;
      priority_speaker = update u.priority_speaker diff.priority_speaker;
      recording = update u.recording diff.recording;
      suppress = update u.suppress diff.suppress;
      self_mute = update u.self_mute diff.self_mute;
      self_deaf = update u.self_deaf diff.self_deaf;
      mute = update u.mute diff.mute;
      deaf = update u.deaf diff.deaf;
    } in
    record v { channel = update v.channel diff.channel_id }

unfoldable pub set_suppressed : User → Bool → User
set_suppressed u value = record u { suppress = value }

-- `From<&User> for mumlib::state::User`.
unfoldable pub to_mumlib : User → Tree.User
to_mumlib u = record {
  comment = u.comment;
  hash = u.hash;
  name = u.name;
  priority_speaker = u.priority_speaker;
  recording = u.recording;
  suppress = u.suppress;
  self_mute = u.self_mute;
  self_deaf = u.self_deaf;
  mute = u.mute;
  deaf = u.deaf;
}
