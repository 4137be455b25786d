-- ===== src/Network/Pings.antt =====
-- mum/src/network/udp.rs, `handle_pings`: requests for the status of servers and their answers.
pub mod Counting
pub mod Race
use mum.Common.{
  ℕ, Bool, true, false, Option, none, some, List, [], ◌∷◌, push, if◌then◌else◌, Outcome, done,
  panic, ◌>>=◌,
}
use mum.Common.Dict.{Dict, get, insert, remove}
use mum.State.Core.{SocketAddr}
use mum.State.Handle.Connect.{PongPacket}

-- `pending` is the map of an id to the channel of the task that waits: its client, and whether the
-- task still waits or has given up. A task waits exactly as long as its channel is in the map and it
-- has not given up. `sent` is what went out on the socket, `answers` what the handles were called with.
pub record Exchange : Type 0 where
  pub pending : Dict (ℕ × Bool)
  pub sent : List (ℕ × SocketAddr)
  pub answers : List (ℕ × Option PongPacket)

-- What wakes the task: a request, whose ping the socket takes or refuses, a pong of the right length,
-- or the end of a second of waiting.
pub data PingEvent : Type 0 where
  requested : ℕ → SocketAddr → ℕ → Bool → PingEvent
  received : PongPacket → PingEvent
  timed_out : ℕ → PingEvent

unfoldable pub start : Exchange
start = record { pending = []; sent = []; answers = [] }

-- The ping is sent before the id is looked up, and one that the socket refuses panics; a request with
-- an id that is there is dropped.
unfoldable pub request : Exchange → ℕ → SocketAddr → ℕ → Bool → Outcome Exchange
request x id addr client false = panic
request x id addr client true =
    let out : Exchange = record x { sent = push x.sent (id, addr) } in
    elim (get x.pending id) [
      | some entry ↦ done out
      | none ↦ done (record out { pending = insert x.pending id (client, true) })
    ]

-- A pong takes its entry out; a task that has given up does not get it.
unfoldable pub receive : Exchange → PongPacket → Exchange
receive x pong = elim (get x.pending pong.id) [
  | none ↦ x
  | some (client, waits) ↦
      let out : Exchange = record x { pending = remove x.pending pong.id } in
      if waits then record out { answers = push x.answers (client, some pong) } else out
]

-- A task that waits gives up and answers; its entry stays in the map.
unfoldable pub time_out : Exchange → ℕ → Exchange
time_out x id = elim (get x.pending id) [
  | none ↦ x
  | some (client, waits) ↦
      if waits
      then record x {
        pending = insert x.pending id (client, false);
        answers = push x.answers (client, none);
      }
      else x
]

unfoldable pub wake : Exchange → PingEvent → Outcome Exchange
unfolding request receive time_out
wake x (requested id addr client takes) = request x id addr client takes
wake x (received pong) = done (receive x pong)
wake x (timed_out id) = done (time_out x id)

unfoldable pub run : Exchange → List PingEvent → Outcome Exchange
run x [] = done x
run x (e ∷ es) = do y ← wake x e; run y es
