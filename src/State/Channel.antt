-- ===== src/State/Channel.antt =====
-- mum/src/state/channel.rs: a channel, how messages change it, and its path from the root.
pub mod Rooted
pub mod Tree
use mum.Common.{
  ℕ, zero, suc, ℤ, pos, Text, text, Bool, Option, some, none, get_or, is_some, List, [], ◌++◌,
  length, Outcome, done, overrun, unwrap, ◌>>=◌, if◌then◌else◌,
}
use mum.Common.Dict.{Dict, get}
use mum.Protocol.{ChannelState}
use mum.Mumlib.Tree as Shown

pub record Channel : Type 0 where
  pub description : Option Text
  pub links : List ℕ
  pub max_users : ℕ
  pub name : Text
  pub parent : Option ℕ
  pub position : ℤ

unfoldable pub new : ChannelState → Channel
new msg = record {
  description = msg.description;
  links = [];
  max_users = get_or msg.max_users 0;
  name = get_or msg.name [];
  parent = msg.parent;
  position = get_or msg.position (pos 0);
}

-- The links are taken from the message whether it has any or not.
unfoldable pub parse_channel_state : Channel → ChannelState → Channel
parse_channel_state c msg = record {
  description = elim msg.description [ none ↦ c.description | some d ↦ some d ];
  links = msg.links;
  max_users = get_or msg.max_users c.max_users;
  name = get_or msg.name c.name;
  parent = elim msg.parent [ none ↦ c.parent | some p ↦ some p ];
  position = get_or msg.position c.position;
}

-- `path` calls itself on the parent; the fuel bounds the depth of the calls. A parent that is not
-- in the map panics.
unfoldable pub path_from : ℕ → Dict Channel → Channel → Outcome Text
path_from zero channels c = overrun
path_from (suc fuel) channels c = elim c.parent [
  | none ↦ done c.name
  | some t ↦ do
    parent ← unwrap (get channels t)
    above ← path_from fuel channels parent
    done (above ++ (text "/" ++ c.name))
]

unfoldable pub path : Dict Channel → Channel → Outcome Text
path channels c = path_from (suc (length channels)) channels c

-- `From<&Channel> for mumlib::state::Channel`.
unfoldable pub to_mumlib : Channel → Shown.Channel
to_mumlib c = Shown.new c.name c.description c.max_users
