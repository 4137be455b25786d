-- ===== src/Tests/Roster.antt =====
-- Users and channels.
use mum.Common.{
  ◌∷◌, ◌≡◌, ◌↔◌, inr, refl, if◌then◌else◌, ◌==◌, text, true, false, none, some, get_or, [], done,
  panic, Ends, ok,
}
use mum.Common.Dict.{get}
use mum.Protocol.{UserState, ChannelState}
use mum.State.User.{parse_user_state}
use mum.State.User.Updates.{blank}
use mum.State.Channel.{path}
use mum.State.Channel.Rooted.{names, path-names}
use mum.State.Server.{channel_name, user_state, channel_state}
use mum.State.Server.Names.{IsForest, Names, channel_name-Names}
use mum.State.Server.Roster.{get-user_state, channel_state-IsForest}
use mum.State.Core.{Daemon}
use mum.State.Presence
use mum.State.Presence.Safe.{remove_user_self, remove_user_unknown}
use mum.State.Presence.News.{news}
use mum.State.Presence.Changed.{Changed}
use mum.State.Server.Histories.{user_states, after_messages, messages_for, get-user_states}
use mum.Mumlib.Event.{user_mute_state_changed, user_left_channel}
use mum.State.Presence.Moves.{Spurious, user_state_without_channel}
use mum.Tests.Data.{
  root_channel, lobby, map_of_channels, lobby-Rooted, map_of_channels-IsForest, ann, bob, roster,
  home, online, online-IsLoaded, outside, about,
}

abbrev muting : UserState
muting = record (about 8) { self_mute = some true }

abbrev renaming : UserState
renaming = record (about 8) { name = some (text "rob"); self_mute = some false }

abbrev cellar : ChannelState
cellar = record {
  channel_id = some 2;
  parent = some 1;
  name = some (text "Cellar");
  links = [];
  description = none;
  position = none;
  max_users = none;
}

get-user_states_example :
    get (user_states (muting ∷ renaming ∷ about 7 ∷ about 9 ∷ []) roster) 8
    ≡ after_messages (get roster 8) (messages_for 8 (muting ∷ renaming ∷ about 7 ∷ about 9 ∷ []))
get-user_states_example = get-user_states (muting ∷ renaming ∷ about 7 ∷ about 9 ∷ []) roster 8

path-names_example : path map_of_channels lobby ≡ done (names lobby-Rooted)
path-names_example = path-names lobby-Rooted

channel_name-Names_example :
    (channel_name (λ t. t) map_of_channels (text "bby") ≡ done (ok (1, lobby)))
    ↔ Names (λ t. t) map_of_channels (text "bby") (1, lobby)
channel_name-Names_example =
    channel_name-Names (λ t. t) map_of_channels (text "bby") (1, lobby) map_of_channels-IsForest

get-user_state_example : get (user_state renaming roster) 7 ≡ (
    if 8 == 7 then some (parse_user_state (get_or (get roster 8) blank) renaming) else get roster 7)
get-user_state_example = get-user_state renaming roster 8 7 refl

channel_state-IsForest_example : IsForest (channel_state cellar map_of_channels)
unfolding get
channel_state-IsForest_example =
    channel_state-IsForest cellar map_of_channels 2 refl refl (inr (1, lobby, refl, refl))
      map_of_channels-IsForest

-- A message without a channel counts as the root's.
muting_told :
    news home 1 muting
    ≡ user_left_channel (text "bob") (text "Root")
      ∷ user_mute_state_changed (text "bob muted themselves")
      ∷ []
unfolding get
muting_told = refl

remove_user_self_example :
    (e : Daemon) × (Presence.remove_user outside online (record { session = some 7 }) ≡ done e)
    × ((next : UserState) → Presence.user_state outside e next ≡ panic)
unfolding get
remove_user_self_example =
    remove_user_self outside online home ann (record { session = some 7 }) online-IsLoaded refl refl
      refl

remove_user_unknown_example :
    Presence.remove_user outside online (record { session = some 9 }) ≡ panic
unfolding get
remove_user_unknown_example =
    remove_user_unknown outside online home ann (record { session = some 9 }) refl refl refl

user_state_without_channel_example :
    Ends
      (Spurious outside online home bob root_channel muting 8)
      (Presence.user_state outside online muting)
unfolding get
user_state_without_channel_example =
    user_state_without_channel outside online home ann bob root_channel muting 8 online-IsLoaded
      refl refl refl refl (λ e. cc) refl refl (λ e. cc) refl
