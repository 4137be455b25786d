-- ===== src/Mumlib/Tree.antt =====
-- mumlib/src/state.rs: the tree of channels that the daemon shows to the controller.
use mum.Common.{ℕ, Text, text, Bool, Option, List, [], ◌++◌, if◌then◌else◌}

pub record User : Type 0 where
  pub comment : Option Text
  pub hash : Option Text
  pub name : Text
  pub priority_speaker : Bool
  pub recording : Bool
  pub suppress : Bool
  pub self_mute : Bool
  pub self_deaf : Bool
  pub mute : Bool
  pub deaf : Bool

-- The fields of `Channel` in the order `description`, `max_users`, `name`, `children`, `users`,
-- `links`; `Channels` is `Vec<Channel>`.
mutual
  pub data Channel : Type 0 where
    channel : Option Text → ℕ → Text → Channels → List User → List (List ℕ) → Channel

  pub data Channels : Type 0 where
    nil : Channels
    cons : Channel → Channels → Channels

pub record Server : Type 0 where
  pub channels : Channel
  pub welcome_text : Option Text
  pub username : Text
  pub host : Text

unfoldable pub new : Text → Option Text → ℕ → Channel
new name description max_users = channel description max_users name nil [] []

true_to_str : Bool → Text → Text
true_to_str condition res = if condition then res else []

-- `Display for User`.
unfoldable pub show_user : User → Text
unfolding true_to_str
show_user u =
    u.name
    ++ (text " "
        ++ (true_to_str u.suppress (text "s")
            ++ (true_to_str u.self_mute (text "M")
                ++ (true_to_str u.self_deaf (text "D")
                    ++ (true_to_str u.mute (text "m") ++ true_to_str u.deaf (text "d"))))))
