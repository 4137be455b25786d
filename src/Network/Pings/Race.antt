-- ===== src/Network/Pings/Race.antt =====
-- A pong against the end of the wait.
use mum.Common.{ℕ, ◌≡◌, refl, true, false, ==_refl, none, some, push}
use mum.Common.Dict.{get, insert, remove, get-insert, get-remove}
use mum.State.Handle.Connect.{PongPacket}
use mum.Network.Pings.{Exchange, receive, time_out}

receive-waits :
    (x : Exchange) (pong : PongPacket) (client : ℕ)
    → get x.pending pong.id ≡ some (client, true)
    → receive x pong ≡ record x {
      pending = remove x.pending pong.id;
      answers = push x.answers (client, some pong);
    }
unfolding receive
receive-waits x pong client there = rw (there, receive) refl

receive-given_up :
    (x : Exchange) (pong : PongPacket) (client : ℕ)
    → get x.pending pong.id ≡ some (client, false)
    → receive x pong ≡ record x { pending = remove x.pending pong.id }
unfolding receive
receive-given_up x pong client there = rw (there, receive) refl

time_out-waits :
    (x : Exchange) (id client : ℕ)
    → get x.pending id ≡ some (client, true)
    → time_out x id ≡ record x {
      pending = insert x.pending id (client, false);
      answers = push x.answers (client, none);
    }
unfolding time_out
time_out-waits x id client there = rw (there, time_out) refl

time_out-unknown : (x : Exchange) (id : ℕ) → get x.pending id ≡ none → time_out x id ≡ x
unfolding time_out
time_out-unknown x id absent = rw (absent, time_out) refl

-- A task that waits is answered by its pong or by the end of its wait, whichever comes first, and not
-- by the other after it; either way its id is free again once the pong has come.
pub answered_by_first :
    (x : Exchange) (pong : PongPacket) (client : ℕ)
    → get x.pending pong.id ≡ some (client, true)
    → ((time_out (receive x pong) pong.id).answers ≡ push x.answers (client, some pong))
      × ((receive (time_out x pong.id) pong).answers ≡ push x.answers (client, none))
      × (get (time_out (receive x pong) pong.id).pending pong.id ≡ none)
      × (get (receive (time_out x pong.id) pong).pending pong.id ≡ none)
answered_by_first x pong client there =
    let taken : get (remove x.pending pong.id) pong.id ≡ none =
      rw (get-remove, ==_refl pong.id) refl in
    let late : get (insert x.pending pong.id (client, false)) pong.id ≡ some (client, false) =
      rw (get-insert, ==_refl pong.id) refl in
    let once : get (remove (insert x.pending pong.id (client, false)) pong.id) pong.id ≡ none =
      rw (get-remove, ==_refl pong.id) refl in
    let first =
      time_out-unknown
        (record x {
          pending = remove x.pending pong.id;
          answers = push x.answers (client, some pong);
        })
        pong.id taken in
    let second =
      receive-given_up
        (record x {
          pending = insert x.pending pong.id (client, false);
          answers = push x.answers (client, none);
        })
        pong client late in
    (
      rw (receive-waits x pong client there, first) refl,
      rw (time_out-waits x pong.id client there, second) refl,
      rw (receive-waits x pong client there, first) taken,
      rw (time_out-waits x pong.id client there, second) once,
    )
