-- ===== src/State/Server/Roster.antt =====
-- What the maps of users and channels hold after a message.
use mum.Common.{
  ℕ, suc, ◌≡◌, ◌⊎◌, inl, inr, Option, none, some, arith, get_or, ◌==◌, ==_iff, if◌then◌else◌,
}
use mathlib.Core.Path.{subst}
use mum.Common.Dict.{Dict, get, insert, get-insert, All-insert, All-get, All-imp}
use mum.Protocol.{UserState, ChannelState}
use mum.State.User.{User, new, parse_user_state}
use mum.State.User.Updates.{blank, new-parse_user_state}
use mum.State.Channel
use mum.State.Channel.{Channel}
use mum.State.Channel.Rooted.{Rooted, root, below}
use mum.State.Server.{user_state, channel_state}
use mum.State.Server.Names.{IsForest}

-- After a user state with a session, the user of that session is the one that was there, or a blank
-- one, with the message parsed into it; every other user is as before.
pub get-user_state :
    (msg : UserState) (users : Dict User) (id j : ℕ)
    → msg.session ≡ some id
    → get (user_state msg users) j
      ≡ (if id == j then some (parse_user_state (get_or (get users id) blank) msg) else get users j)
unfolding user_state
get-user_state msg users id j h = ground (
  arith,
  new-parse_user_state msg,
  get-insert users id (new msg) j,
  get-insert users id (parse_user_state (get_or (get users id) blank) msg) j,
)

-- A chain of parents stays when a channel is added that was not there.
Rooted-insert :
    {channels : Dict Channel} {n : ℕ} {c : Channel} (id : ℕ) (v : Channel)
    → get channels id ≡ none
    → Rooted channels n c
    → Rooted (insert channels id v) n c
Rooted-insert id v fresh (root e) = root e
Rooted-insert {channels} id v fresh (below t p e g r) =
    below t p e (ground (arith, get-insert channels id v t, ==_iff id t))
      (Rooted-insert id v fresh r)

-- The parent of the channel is in the map, if it has one.
abbrev pub HasParent : Dict Channel → Option ℕ → Type 0
HasParent channels parent =
    (parent ≡ none) ⊎ ((t : ℕ) × (p : Channel) × (parent ≡ some t) × (get channels t ≡ some p))

Rooted_of_HasParent :
    (channels : Dict Channel) (c : Channel)
    → HasParent channels c.parent
    → IsForest channels
    → (n : ℕ) × Rooted channels n c
Rooted_of_HasParent channels c (inl e) forest = (0, root e)
Rooted_of_HasParent channels c (inr (t, p, e, g)) forest =
    let (n, r) = All-get (λ d. (n : ℕ) × Rooted channels n d) channels t p g forest in
    (suc n, below t p e g r)

insert-IsForest :
    (channels : Dict Channel) (id : ℕ) (c : Channel)
    → get channels id ≡ none
    → HasParent channels c.parent
    → IsForest channels
    → IsForest (insert channels id c)
insert-IsForest channels id c fresh above forest =
    let keep : (d : Channel)
        → (n : ℕ) × Rooted channels n d
        → (n : ℕ) × Rooted (insert channels id c) n d =
      λ d r. (r.0, Rooted-insert id c fresh r.1) in
    All-insert (λ d. (n : ℕ) × Rooted (insert channels id c) n d) channels id c
      (keep c (Rooted_of_HasParent channels c above forest))
      (All-imp (λ d. (n : ℕ) × Rooted channels n d)
        (λ d. (n : ℕ) × Rooted (insert channels id c) n d) channels keep forest)

-- The state of a channel that is new to the map, and whose parent is in the map if it has one, keeps
-- the channels a forest.
pub channel_state-IsForest :
    (msg : ChannelState) (channels : Dict Channel) (id : ℕ)
    → msg.channel_id ≡ some id
    → get channels id ≡ none
    → HasParent channels msg.parent
    → IsForest channels
    → IsForest (channel_state msg channels)
unfolding channel_state Channel.new
channel_state-IsForest msg channels id h fresh above forest =
    subst IsForest {x = insert channels id (Channel.new msg)} (ground arith)
      (insert-IsForest channels id (Channel.new msg) fresh above forest)
