-- ===== src/Network/Pings/Counting.antt =====
-- A client is answered at most as often as it has asked.
use mum.Common.{
  ℕ, ◌+◌, ◌≤◌, ◌≡◌, inl, inr, Bool, true, false, ◌==◌, ◌&&◌, if◌then◌else◌, Option, none, some,
  Option-cases, List, [], ◌∷◌, push, arith, All, Ends, Ends->>=, Ends-WhenDone, WhenDone,
  WhenDone->>=, WhenDone-imp,
}
use mum.Common.Dict.{Dict, get, insert, remove}
use mum.State.Handle.Connect.{PongPacket}
use mum.Network.Pings.{
  Exchange, PingEvent, requested, received, timed_out, start, request, receive, time_out, wake, run,
}

module _ (c : ℕ) where
  -- The answers to the client, the tasks that wait for it, and its requests.
  abbrev pub answered : List (ℕ × Option PongPacket) → ℕ
  answered [] = 0
  answered ((client, a) ∷ rest) = (if client == c then 1 else 0) + answered rest

  abbrev pub waiting : Dict (ℕ × Bool) → ℕ
  waiting [] = 0
  waiting ((id, (client, waits)) ∷ rest) = (if waits && client == c then 1 else 0) + waiting rest

  abbrev pub asked : PingEvent → ℕ
  asked (requested id addr client takes) = if client == c then 1 else 0
  asked _ = 0

  abbrev pub asked_in : List PingEvent → ℕ
  asked_in [] = 0
  asked_in (e ∷ es) = asked e + asked_in es

  abbrev pub open_or_answered : Exchange → ℕ
  open_or_answered x = answered x.answers + waiting x.pending

  answered-push :
      (l : List (ℕ × Option PongPacket)) (client : ℕ) (a : Option PongPacket)
      → answered (push l (client, a)) ≡ answered l + (if client == c then 1 else 0)
  answered-push [] client a = omega arith
  answered-push ((d, b) ∷ l) client a = omega (arith, answered-push l client a)

  waiting-insert :
      (p : Dict (ℕ × Bool)) (id client : ℕ)
      → waiting (insert p id (client, true)) ≤ waiting p + (if client == c then 1 else 0)
  unfolding insert
  waiting-insert [] id client = omega arith
  waiting-insert ((j, (d, w)) ∷ p) id client = ground (arith, waiting-insert p id client)

  waiting-give_up :
      (p : Dict (ℕ × Bool)) (id client : ℕ)
      → get p id ≡ some (client, true)
      → waiting (insert p id (client, false)) + (if client == c then 1 else 0) ≤ waiting p
  unfolding get insert
  waiting-give_up [] id client h = cc
  waiting-give_up ((j, (d, w)) ∷ p) id client h = ground (arith, waiting-give_up p id client)

  waiting-remove-le : (p : Dict (ℕ × Bool)) (id : ℕ) → waiting (remove p id) ≤ waiting p
  unfolding remove
  waiting-remove-le [] id = omega arith
  waiting-remove-le ((j, (d, w)) ∷ p) id = ground (arith, waiting-remove-le p id)

  waiting-remove :
      (p : Dict (ℕ × Bool)) (id client : ℕ)
      → get p id ≡ some (client, true)
      → waiting (remove p id) + (if client == c then 1 else 0) ≤ waiting p
  unfolding get remove
  waiting-remove [] id client h = cc
  waiting-remove ((j, (d, w)) ∷ p) id client h =
      ground (arith, waiting-remove p id client, waiting-remove-le p id)

  abbrev Grows : Exchange → ℕ → Exchange → Type 0
  Grows x n y = open_or_answered y ≤ open_or_answered x + n

  wake-asked : (x : Exchange) (e : PingEvent) → WhenDone (Grows x (asked e)) (wake x e)
  unfolding wake request receive time_out
  wake-asked x (requested id addr client false) = tt
  wake-asked x (requested id addr client true) = elim (Option-cases (get x.pending id)) [
    | inl fresh ↦ rw (fresh, request) (omega (arith, waiting-insert x.pending id client))
    | inr (entry, taken) ↦ rw (taken, request) (omega arith)
  ]
  wake-asked x (received pong) = elim (Option-cases (get x.pending pong.id)) [
    | inl unknown ↦ rw (unknown, receive) (omega arith)
    | inr ((client, true), there) ↦
        rw (there, receive)
          (omega (
            arith,
            waiting-remove x.pending pong.id client there,
            answered-push x.answers client (some pong),
          ))
    | inr ((client, false), there) ↦
        rw (there, receive) (omega (arith, waiting-remove-le x.pending pong.id))
  ]
  wake-asked x (timed_out id) = elim (Option-cases (get x.pending id)) [
    | inl unknown ↦ rw (unknown, time_out) (omega arith)
    | inr ((client, true), there) ↦
        rw (there, time_out)
          (omega
            (arith, waiting-give_up x.pending id client there, answered-push x.answers client none))
    | inr ((client, false), there) ↦ rw (there, time_out) (omega arith)
  ]

  run-asked : (es : List PingEvent) (x : Exchange) → WhenDone (Grows x (asked_in es)) (run x es)
  unfolding run
  run-asked [] x = omega arith
  run-asked (e ∷ es) x =
      WhenDone->>= (Grows x (asked e)) (Grows x (asked e + asked_in es)) (wake x e) _
        (wake-asked x e)
        (λ y first.
          WhenDone-imp (Grows y (asked_in es)) (Grows x (asked e + asked_in es)) (run y es)
            (run-asked es y) (λ z rest. omega (arith, first, rest)))

  -- The socket takes the ping of a request.
  abbrev pub IsTaken : PingEvent → Type 0
  IsTaken (requested id addr client takes) = takes ≡ true
  IsTaken _ = Unit

  wake-taken : (x : Exchange) (e : PingEvent) → IsTaken e → Ends (λ y. Unit) (wake x e)
  unfolding wake request
  wake-taken x (requested id addr client takes) h = rw h (elim (Option-cases (get x.pending id)) [
    | inl fresh ↦ rw (request, fresh) tt
    | inr (entry, taken) ↦ rw (request, taken) tt
  ])
  wake-taken x (received pong) h = tt
  wake-taken x (timed_out id) h = tt

  run-taken : (es : List PingEvent) (x : Exchange) → All IsTaken es → Ends (λ y. Unit) (run x es)
  unfolding run
  run-taken [] x h = tt
  run-taken (e ∷ es) x (h, hs) =
      Ends->>= (λ y. Unit) (λ y. Unit) (wake x e) _ (wake-taken x e h) (λ y u. run-taken es y hs)

  -- In every order of requests, pongs and time-outs, from the start, if the socket takes every ping,
  -- the task goes on, and the answers to a client and the tasks that still wait for it are together
  -- at most as many as its requests.
  pub run-start-asked :
      (es : List PingEvent)
      → All IsTaken es
      → Ends (λ x. open_or_answered x ≤ asked_in es) (run start es)
  unfolding start
  run-start-asked es taken =
      Ends-WhenDone (λ x. Unit) (λ x. open_or_answered x ≤ asked_in es) (run start es)
        (run-taken es start taken)
        (WhenDone-imp (Grows start (asked_in es)) (λ x. open_or_answered x ≤ asked_in es)
          (run start es) (run-asked es start) (λ x h. omega (arith, h)))
