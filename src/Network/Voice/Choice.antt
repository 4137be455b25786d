-- ===== src/Network/Voice/Choice.antt =====
-- When the voice goes over UDP and when over TCP.
use mathlib.Core.Path.{subst, fun_ext}
use mum.Common.{
  Ends, Ends->>=, Ends-imp, Outcome, done, ◌>>=◌, >>=-assoc, sym, ℕ, ◌^◌, ◌<◌, ◌≡◌, ap, ◌∙◌, refl,
  Bool, true, false, ==_refl, some, none, List, [], ◌∷◌, ◌++◌, All, arith,
}
use mum.State.Core.{StatePhase, VoiceStreamType, broadcast_phase}
use mum.Network.Voice.{
  ping, audio, UdpLink, UdpEvent, received, ticked, listen, send_ping, wake, run, unanswered,
  next_timestamp,
}

-- What is not a ping: packets that cannot be read, and audio.
abbrev pub IsNoPing : UdpEvent → Type 0
IsNoPing (received none) = Unit
IsNoPing (received (some (audio session_id payload))) = Unit
IsNoPing _ = ⊥

-- The server's answer to the ping that is sent with that timestamp, with audio and broken packets
-- before and after it.
abbrev pub answered_round : ℕ → List UdpEvent → List UdpEvent → List UdpEvent
answered_round t before after = ticked true ∷ before ++ received (some (ping t)) ∷ after

abbrev SameChoice : UdpLink → UdpLink → Type 0
SameChoice l m =
    (m.state ≡ l.state) × (m.last_ping_recv ≡ l.last_ping_recv) × (m.last_send ≡ l.last_send)

abbrev pub IsOn : VoiceStreamType → UdpLink → Type 0
IsOn stream l = l.state.phase ≡ StatePhase.connected stream

-- The link after the answer has come, and after what has come behind it.
abbrev Answered : ℕ → UdpLink → Type 0
Answered n l = IsOn VoiceStreamType.udp l × (l.last_send ≡ some n) × (l.last_ping_recv ≡ n)

-- The next timestamp is not the last that came, when it wraps around neither.
next_unanswered :
    (checked : Bool) (n t : ℕ)
    → n < 2 ^ 64
    → next_timestamp checked n ≡ done t
    → unanswered (some t) n ≡ true
unfolding next_timestamp
next_unanswered checked n t fits h = ground (arith, h)

module _ (checked : Bool) where
  wake-SameChoice :
      (l : UdpLink) (e : UdpEvent) → IsNoPing e → Ends (SameChoice l) (wake checked l e)
  unfolding wake listen
  wake-SameChoice l (received none) h = (refl, refl, refl)
  wake-SameChoice l (received (some (audio session_id payload))) h = (refl, refl, refl)
  wake-SameChoice l (received (some (ping t))) h = absurd h
  wake-SameChoice l (ticked sends) h = absurd h

  run-SameChoice :
      (es : List UdpEvent) (l : UdpLink) → All IsNoPing es → Ends (SameChoice l) (run checked l es)
  unfolding run
  run-SameChoice [] l h = (refl, refl, refl)
  run-SameChoice (e ∷ es) l (h, rest) =
      Ends->>= (SameChoice l) (SameChoice l) (wake checked l e) _ (wake-SameChoice l e h) (λ m same.
        Ends-imp (SameChoice m) (SameChoice l) (run checked m es) (run-SameChoice es m rest)
          (λ k more. (more.0 ∙ same.0, more.1 ∙ same.1, more.2 ∙ same.2)))

  run-append :
      (es fs : List UdpEvent) (l : UdpLink)
      → run checked l (es ++ fs) ≡ (run checked l es >>= λ m. run checked m fs)
  unfolding run
  run-append [] fs l = refl
  run-append (e ∷ es) fs l =
      ap (λ (k : UdpLink → Outcome UdpLink). wake checked l e >>= k)
        (fun_ext λ m. run-append es fs m)
      ∙ sym (>>=-assoc (wake checked l e) _ _)

  -- A turn leaves the choice if the last ping has come back, and takes TCP if it has not.
  send_ping-answered :
      (l : UdpLink) (sends : Bool) (t : ℕ)
      → next_timestamp checked l.last_ping_recv ≡ done t
      → unanswered l.last_send l.last_ping_recv ≡ false
      → IsOn VoiceStreamType.udp l
      → Ends (IsOn VoiceStreamType.udp) (send_ping checked l sends)
  unfolding send_ping
  send_ping-answered l true t next h on = rw (next, h) on
  send_ping-answered l false t next h on = rw (next, h) on

  send_ping-unanswered :
      (l : UdpLink) (sends : Bool) (t : ℕ)
      → next_timestamp checked l.last_ping_recv ≡ done t
      → unanswered l.last_send l.last_ping_recv ≡ true
      → Ends (IsOn VoiceStreamType.tcp) (send_ping checked l sends)
  unfolding send_ping broadcast_phase
  send_ping-unanswered l true t next h = rw (next, h) refl
  send_ping-unanswered l false t next h = rw (next, h) refl

  abbrev Sent : UdpLink → ℕ → UdpLink → Type 0
  Sent l t m = (m.last_send ≡ some t) × (m.last_ping_recv ≡ l.last_ping_recv)

  send_ping-Sent :
      (l : UdpLink) (t : ℕ)
      → next_timestamp checked l.last_ping_recv ≡ done t
      → Ends (Sent l t) (send_ping checked l true)
  unfolding send_ping
  send_ping-Sent l t next = rw next (refl, refl)

  -- What follows a turn of which the ping goes out, up to the next ping.
  run-Sent :
      (l : UdpLink) (t : ℕ) (es : List UdpEvent)
      → next_timestamp checked l.last_ping_recv ≡ done t
      → All IsNoPing es
      → Ends (Sent l t) (run checked l (ticked true ∷ es))
  unfolding run wake
  run-Sent l t es next h =
      Ends->>= (Sent l t) (Sent l t) (send_ping checked l true) _ (send_ping-Sent l t next)
        (λ m sent.
          Ends-imp (SameChoice m) (Sent l t) (run checked m es) (run-SameChoice es m h)
            (λ k same. (same.2 ∙ sent.0, same.1 ∙ sent.1)))

  listen-Answered :
      (l : UdpLink) (n : ℕ) → l.last_send ≡ some n → Answered n (listen l (some (ping n)))
  unfolding listen broadcast_phase
  listen-Answered l n h = (refl, h, refl)

  answer-Answered :
      (l : UdpLink) (n : ℕ) (es : List UdpEvent)
      → All IsNoPing es
      → l.last_send ≡ some n
      → Ends (Answered n) (run checked l (received (some (ping n)) ∷ es))
  unfolding run wake
  answer-Answered l n es h sent =
      let (phase, send, came) = listen-Answered l n sent in
      Ends-imp (SameChoice (listen l (some (ping n)))) (Answered n) _
        (run-SameChoice es (listen l (some (ping n))) h)
        (λ k same. (ap (λ s. s.phase) same.0 ∙ phase, same.2 ∙ send, same.1 ∙ came))

  -- If the ping of a turn goes out and its answer comes before the next turn, with whatever audio
  -- before and after it and no other ping, then after the answer the voice goes over UDP, and the
  -- next turn leaves it there. The build wraps timestamps around or neither of the two overflows.
  pub run-answered :
      (l : UdpLink) (before after : List UdpEvent) (sends : Bool) (t u : ℕ)
      → next_timestamp checked l.last_ping_recv ≡ done t
      → next_timestamp checked t ≡ done u
      → All IsNoPing before
      → All IsNoPing after
      → Ends
          (λ m.
            IsOn VoiceStreamType.udp m
            × Ends (IsOn VoiceStreamType.udp) (send_ping checked m sends))
          (run checked l (answered_round t before after))
  run-answered l before after sends t u next later h k =
      subst (Ends _) (sym (run-append (ticked true ∷ before) (received (some (ping t)) ∷ after) l))
        (Ends->>= (Sent l t) _ (run checked l (ticked true ∷ before)) _ (run-Sent l t before next h)
          (λ m sent. Ends-imp (Answered t) _ _ (answer-Answered m t after k sent.0) (λ n answered. (
            answered.0,
            send_ping-answered n sends u (rw answered.2 later)
                (rw (answered.1, answered.2) (rw (==_refl t) refl)) answered.0,
          ))))

  -- If the ping of a turn goes out and no ping comes before the next turn, the voice goes over TCP
  -- from that turn on. The build wraps timestamps around or the one sent does not overflow.
  pub run-unanswered :
      (l : UdpLink) (between : List UdpEvent) (sends : Bool) (t : ℕ)
      → l.last_ping_recv < 2 ^ 64
      → next_timestamp checked l.last_ping_recv ≡ done t
      → All IsNoPing between
      → Ends
          (λ m. Ends (IsOn VoiceStreamType.tcp) (send_ping checked m sends))
          (run checked l (ticked true ∷ between))
  run-unanswered l between sends t fits next h =
      Ends-imp (Sent l t) _ (run checked l (ticked true ∷ between)) (run-Sent l t between next h)
        (λ m sent.
          send_ping-unanswered m sends t (rw sent.1 next)
            (rw (sent.0, sent.1) (next_unanswered checked l.last_ping_recv t fits next)))
