-- ===== src/Network/Listen/Counters.antt =====
-- The counters of `Ping` packets, with and without checks of overflow.
use mum.Common.{
  ℕ, ◌≡◌, ◌⊎◌, inl, inr, refl, Bool, true, false, ltb, leb, ◌+◌, ◌-◌, ◌%◌, ◌^◌, ◌≤◌, ◌<◌, done,
  panic, Bool-cases, arith,
}
use mum.Network.Listen.{Pings, sub_u32, add_u32, count_ping}

-- The build does not check overflow, or the counter has not fallen.
abbrev pub Goes : Bool → ℕ → ℕ → Type 0
Goes checked last now = (checked ≡ false) ⊎ (last ≤ now)

-- Adding the difference gives the new value back.
there_and_back :
    (checked : Bool) (last now : ℕ)
    → last < 2 ^ 32
    → now < 2 ^ 32
    → Goes checked last now
    → (late : ℕ) × (sub_u32 checked now last ≡ done late) × (add_u32 checked last late ≡ done now)
unfolding sub_u32 add_u32
there_and_back checked last now a b goes = elim (Bool-cases (leb last now)) [
  | inl up ↦ (now - last, rw up refl, ground arith)
  | inr down ↦
      let release : checked ≡ false = ground arith in
      let over : ltb (last + (now + 2 ^ 32 - last)) (2 ^ 32) ≡ false = ground arith in
      let back : (last + (now + 2 ^ 32 - last)) % 2 ^ 32 ≡ now = omega arith in
      (now + 2 ^ 32 - last, rw (release, down) refl, rw (release, over, back) refl)
]

-- After a `Ping` the counters are those of the packet. In a build that checks overflow this needs that
-- no counter has fallen; without the checks the two wrap-arounds cancel.
pub count_ping_lem :
    (checked : Bool) (p : Pings) (late lost resync : ℕ)
    → (p.last_late < 2 ^ 32) × (p.last_lost < 2 ^ 32) × (p.last_resync < 2 ^ 32)
    → (late < 2 ^ 32) × (lost < 2 ^ 32) × (resync < 2 ^ 32)
    → Goes checked p.last_late late
    → Goes checked p.last_lost lost
    → Goes checked p.last_resync resync
    → count_ping checked p late lost resync
      ≡ done (record { last_late = late; last_lost = lost; last_resync = resync })
unfolding count_ping
count_ping_lem checked p late lost resync (a, b, c) (x, y, z) g h k =
    let (i, sub_late, add_late) = there_and_back checked p.last_late late a x g in
    let (j, sub_lost, add_lost) = there_and_back checked p.last_lost lost b y h in
    let (l, sub_resync, add_resync) = there_and_back checked p.last_resync resync c z k in
    rw (sub_late, sub_lost, sub_resync, add_late, add_lost, add_resync) refl

-- In a build that checks overflow a `Ping` whose counter of late packets has fallen panics.
pub count_ping_falls :
    (p : Pings) (late lost resync : ℕ)
    → late < p.last_late
    → count_ping true p late lost resync ≡ panic
unfolding count_ping sub_u32
count_ping_falls p late lost resync fell =
    let down : leb p.last_late late ≡ false = ground arith in rw (down, sub_u32) refl
