-- ===== src/Network/Queue/Laws.antt =====
-- The event queue: one answer for each group of callbacks, and who stays subscribed.
use mathlib.Core.Path.{subst}
use mathlib.Core.List.{append-nil, append_assoc}
use mum.Common.{
  ℕ, Text, ◌≡◌, refl, sym, inl, inr, ==_refl, true, false, some, get_or, List, [], ◌∷◌, ◌++◌, map,
  keep_if, push, Bool-cases, Outcome, done, ok, WhenDone, WhenDone->>=, WhenDone-any, arith,
}
use mum.Common.Dict.{get, insert, get-insert}
use mum.Protocol.{TextMessage}
use mum.Mumlib.Command.{Response, CommandResponse}
use mum.State.Core.{Env, State, get_user_name}
use mum.State.Handle.{TcpEventSubscriberCallback, forward_message}
use mum.State.Handle.Connect.{TcpEventData, run_callback, run_subscriber}
use mum.Network.Queue.{
  Registered, Subscribed, World, send_all, run_registered, each_callback, each_subscriber,
}

-- The group has answered: its `should_handle` is false.
abbrev pub Spent : ℕ → World → Type 0
Spent g w = get_or (get w.flags g) false ≡ false

send_all-Spent :
    (g : ℕ) (w : World) (client : ℕ) (rs : List Response)
    → Spent g w
    → WhenDone (Spent g) (send_all w client rs)
unfolding send_all
send_all-Spent g w client [] h = h
send_all-Spent g w client (r ∷ rs) h = elim (Bool-cases (w.listening client)) [
  | inl e ↦ rw e (send_all-Spent g (record w { sent = push w.sent (client, r) }) client rs h)
  | inr e ↦ rw e tt
]

insert-Spent :
    (g : ℕ) (w : World) (k : ℕ) → Spent g w → Spent g (record w { flags = insert w.flags k false })
insert-Spent g w k h = rw get-insert (ground (arith, h))

run_registered-Spent :
    (g : ℕ) (c : Registered) (fired : TcpEventData) (w : World)
    → Spent g w
    → WhenDone (Spent g) (run_registered c fired w)
unfolding run_registered
run_registered-Spent g c fired w h = elim (Bool-cases (get_or (get w.flags c.group) false)) [
  | inl e ↦ rw e (
      WhenDone-any (Spent g) (run_callback w.daemon.state c.generator fired) _ (λ rs.
        send_all-Spent g (record w { flags = insert w.flags c.group false }) c.client rs
          (insert-Spent g w c.group h)))
  | inr e ↦ rw e (insert-Spent g w c.group h)
]

run_registered-own :
    (c : Registered) (fired : TcpEventData) (w : World)
    → WhenDone (Spent c.group) (run_registered c fired w)
unfolding run_registered
run_registered-own c fired w = elim (Bool-cases (get_or (get w.flags c.group) false)) [
  | inl e ↦ rw e (
      WhenDone-any (Spent c.group) (run_callback w.daemon.state c.generator fired) _ (λ rs.
        send_all-Spent c.group (record w { flags = insert w.flags c.group false }) c.client rs
          (fresh w c.group)))
  | inr e ↦ rw e (fresh w c.group)
]
  where
    fresh : (v : World) (k : ℕ) → Spent k (record v { flags = insert v.flags k false })
    fresh v k = rw (get-insert, ==_refl k) refl

each_callback-Spent :
    (g : ℕ) (cs : List Registered) (fired : TcpEventData) (w : World)
    → Spent g w
    → WhenDone (Spent g) (each_callback cs fired w)
unfolding each_callback
each_callback-Spent g [] fired w h = h
each_callback-Spent g (c ∷ cs) fired w h =
    WhenDone->>= (Spent g) (Spent g) (run_registered c fired w) _
      (run_registered-Spent g c fired w h) (λ v s. each_callback-Spent g cs fired v s)

WhenDone-at :
    {A : Type 0} (P : A → Type 0) {m : Outcome A} {a : A} → WhenDone P m → m ≡ done a → P a
WhenDone-at P h e = subst (WhenDone P) e h

-- A closure of a group that has answered neither panics nor sends nor touches the daemon.
run_registered-idle :
    (c : Registered) (fired : TcpEventData) (w : World)
    → Spent c.group w
    → run_registered c fired w ≡ done (record w { flags = insert w.flags c.group false })
unfolding run_registered
run_registered-idle c fired w h = rw h refl

-- Of the closures that share one `should_handle` only one answers: once `c` has run, and whatever
-- other closures `cs` have run since, a closure of its group returns and sends nothing, for any event.
pub answers_once :
    (c other : Registered) (cs : List Registered) (first between last : TcpEventData)
    (w v u : World)
    → other.group ≡ c.group
    → run_registered c first w ≡ done v
    → each_callback cs between v ≡ done u
    → run_registered other last u ≡ done (record u { flags = insert u.flags other.group false })
answers_once c other cs first between last w v u same run between_run =
    run_registered-idle other last u (
      subst (λ g. Spent g u) (sym same)
        (WhenDone-at (Spent c.group)
          (each_callback-Spent c.group cs between v
            (WhenDone-at (Spent c.group) (run_registered-own c first w) run))
          between_run))

pub send_all-map :
    (w : World) (client : ℕ) (rs : List Response)
    → w.listening client ≡ true
    → send_all w client rs ≡ done (record w { sent = w.sent ++ map (λ r. (client, r)) rs })
unfolding send_all
send_all-map w client [] on = rw append-nil refl
send_all-map w client (r ∷ rs) on =
    rw (on, send_all-map (record w { sent = push w.sent (client, r) }) client rs on, append_assoc)
      refl

-- The first closure of a group to run gives all its responses to its client, in order, if the client
-- still listens and the generator returns.
pub first_answers :
    (c : Registered) (fired : TcpEventData) (w : World) (rs : List Response)
    → get w.flags c.group ≡ some true
    → w.listening c.client ≡ true
    → run_callback w.daemon.state c.generator fired ≡ done rs
    → run_registered c fired w
      ≡ done (record w {
        flags = insert w.flags c.group false;
        sent = w.sent ++ map (λ r. (c.client, r)) rs;
      })
unfolding run_registered
first_answers c fired w rs flag on returns =
    rw (flag, returns)
      (send_all-map (record w { flags = insert w.flags c.group false }) c.client rs on)

-- What a subscriber is sent for a message by someone of that name.
abbrev pub forwarded : Env → TextMessage → Text → Subscribed → ℕ × Response
forwarded env msg name s =
    (s.client, ok (some (CommandResponse.past_message env.now msg.message name)))

run_subscriber-forwards :
    (env : Env) (state : State) (handler : TcpEventSubscriberCallback) (msg : TextMessage)
    (name : Text)
    → get_user_name state (get_or msg.actor 0) ≡ some name
    → run_subscriber env state handler (TcpEventData.text_message msg)
      ≡ done (ok (some (CommandResponse.past_message env.now msg.message name)))
unfolding run_subscriber
run_subscriber-forwards env state forward_message msg name known = rw known refl

-- A text message reaches every subscriber that still listens, in the order of subscription, and these
-- stay subscribed and no other, while the daemon has a name for its writer, as it has when connected.
pub each_subscriber-keep_if :
    (env : Env) (ss : List Subscribed) (msg : TextMessage) (name : Text) (w : World)
    → get_user_name w.daemon.state (get_or msg.actor 0) ≡ some name
    → each_subscriber env ss (TcpEventData.text_message msg) w
      ≡ done (
        keep_if (λ s. w.listening s.client) ss,
        record w {
          sent = w.sent ++ map (forwarded env msg name) (keep_if (λ s. w.listening s.client) ss);
        },
      )
unfolding each_subscriber
each_subscriber-keep_if env [] msg name w known = rw append-nil refl
each_subscriber-keep_if env (s ∷ ss) msg name w known = elim (Bool-cases (w.listening s.client)) [
  | inl e ↦
      rw
        (
          run_subscriber-forwards env w.daemon.state s.handler msg name known,
          e,
          each_subscriber-keep_if env ss msg name
              (record w { sent = push w.sent (forwarded env msg name s) }) known,
          append_assoc,
        )
        refl
  | inr e ↦
      rw
        (
          run_subscriber-forwards env w.daemon.state s.handler msg name known,
          e,
          each_subscriber-keep_if env ss msg name w known,
        )
        refl
]
