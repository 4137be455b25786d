-- ===== src/Protocol.antt =====
-- The messages of the Mumble protocol as the program observes them. The types come from a crate;
-- a field is `none` where `has_…` is false, `take_…` and `get_…` give its value or the default of
-- its type, as the generated accessors do.
use mum.Common.{ℕ, ℤ, Text, Bool, Option, List}

pub record UserState : Type 0 where
  pub session : Option ℕ
  pub name : Option Text
  pub channel_id : Option ℕ
  pub mute : Option Bool
  pub deaf : Option Bool
  pub suppress : Option Bool
  pub self_mute : Option Bool
  pub self_deaf : Option Bool
  pub comment : Option Text
  pub hash : Option Text
  pub priority_speaker : Option Bool
  pub recording : Option Bool

pub record ChannelState : Type 0 where
  pub channel_id : Option ℕ
  pub parent : Option ℕ
  pub name : Option Text
  pub links : List ℕ
  pub description : Option Text
  pub position : Option ℤ
  pub max_users : Option ℕ

pub record UserRemove : Type 0 where
  pub session : Option ℕ

pub record ChannelRemove : Type 0 where
  pub channel_id : Option ℕ

pub record ServerSync : Type 0 where
  pub session : Option ℕ
  pub welcome_text : Option Text

pub record TextMessage : Type 0 where
  pub actor : Option ℕ
  pub session : List ℕ
  pub channel_id : List ℕ
  pub tree_id : List ℕ
  pub message : Text
