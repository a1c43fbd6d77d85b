-- ===== src/Examples/Routing.antt =====
-- A board of two chips: the packets of chip 0 with key 5 go over link 0 to chip 1 and to core 0.
use spi_nnaker_emulator.Base.{
  ℕ, zero, suc, ◌<◌, ◌≡◌, ◌⊎◌, inl, inr, refl, ap, sym, arith, true, eq-cases, ◌==◌, ==_ne, ◌&&◌,
  [], ◌++◌, Option, none, some, if◌then◌else◌, Table, has_bit,
}
use spi_nnaker_emulator.Base.Int.{ℤ, pos, negsuc}
use spi_nnaker_emulator.Grid.{Dims, channel_target, target_value, num_links, num_cpus}
use spi_nnaker_emulator.Grid.Links.{channel_target-total}
use spi_nnaker_emulator.McQueue.{Mc, Queue, contents}
use spi_nnaker_emulator.McQueue.Fifo.{enqueue}
use spi_nnaker_emulator.Wire.{Route, num_routes}
use spi_nnaker_emulator.Board.{empty_route}
use spi_nnaker_emulator.Board.Setup.{matches-empty_route}
use spi_nnaker_emulator.Router.{Net, State, matches, route_mc, forward, flush_mc_queues}
use spi_nnaker_emulator.Router.Match.{Matches, IsFirst, NoneMatches, route_mc_cases}
use spi_nnaker_emulator.Router.Forward.{
  HasLinks, Leads, core_datagrams, forward_sent, forward_other, forward_reached,
}
use spi_nnaker_emulator.Router.Keep.{IsReady, AllQueued}
use spi_nnaker_emulator.Router.Flush.{IsRanked, IsFlushed, flush_mc_queues-IsFlushed}

abbrev or_unconnected : Option ℤ → ℤ
or_unconnected none = negsuc 0
or_unconnected (some z) = z

abbrev pair : Dims
pair = record { chips_x = 2; chips_y = 1 }

-- Link 0 and core 0.
abbrev east_and_core : Route
east_and_core = record { key = 5; mask = 0xFFFFFFFF; route = 65 }

abbrev entries : Table Route
entries c k = if c == 0 && k == 1 then east_and_core else empty_route

unfoldable pub board : Net
unfolding channel_target
board = record {
  dims = pair;
  channel_targets = λ c j. or_unconnected (channel_target pair c j);
  routes = entries;
}

pub board-HasLinks : HasLinks board
unfolding board
board-HasLinks c j hc hj = elim (channel_target-total pair j c hc) [
  | inl e ↦ rw e
  | inr (b, e, lt) ↦ rw e
]

abbrev pub five : Mc
five = record { key = 5; payload = 9; has_payload = 1 }

abbrev no_packets : Queue
no_packets = record { pos = 0; len = 0; slots = λ i. five }

abbrev one_packet : Queue
one_packet = record { pos = 1023; len = 1; slots = λ i. five }

abbrev pub waiting : State
waiting = record {
  queues = λ t c. if t == 0 && c == 0 then one_packet else no_packets;
  mc_pending = true;
  sent = [];
}

-- A packet on chip 0 has one hop to go.
abbrev pub hops : ℕ → Mc → ℕ
hops t mc = if t == 0 then 1 else 0

entry_one : (c k : ℕ) (mc : Mc) → matches (entries c k) mc ≡ true → (c ≡ 0) × (k ≡ 1)
entry_one c k mc h = elim (eq-cases c 0) [
  | inl e ↦ elim (eq-cases k 1) [
    | inl e' ↦ (e, e')
    | inr ne ↦ absurd (ground (arith, matches-empty_route mc))
  ]
  | inr ne ↦ absurd (ground (arith, matches-empty_route mc))
]

abbrev as_chip : ℤ → ℕ
as_chip (pos t) = t
as_chip (negsuc _) = 0

target_of_link :
    (j t : ℕ) → j < num_links → has_bit 65 j ≡ true → board.channel_targets 0 j ≡ pos t → t ≡ 1
unfolding board target_value
target_of_link zero t h bit e = ap as_chip (sym e)
target_of_link (suc zero) t h bit e = cc
target_of_link (suc (suc zero)) t h bit e = cc
target_of_link (suc (suc (suc zero))) t h bit e = cc
target_of_link (suc (suc (suc (suc zero)))) t h bit e = cc
target_of_link (suc (suc (suc (suc (suc zero))))) t h bit e = cc
target_of_link (suc (suc (suc (suc (suc (suc n)))))) t h bit e = absurd (omega arith)

route_at : (c k : ℕ) (mc : Mc) → Matches board c mc k → (c ≡ 0) × (k ≡ 1)
unfolding board
route_at c k mc h = entry_one c k mc h

Leads-east :
    (c k j t : ℕ) (mc : Mc)
    → Matches board c mc k
    → j < num_links
    → Leads board c (board.routes c k) mc j t
    → (c ≡ 0) × (t ≡ 1)
unfolding board
Leads-east c k j t mc hit hj l =
    let (ec, ek) = route_at c k mc hit in
    let l' : Leads board 0 east_and_core mc j t = rw (ec, ek) at l in
    (ec, target_of_link j t hj (l'.0) (l'.1))

pub board-IsRanked : IsRanked board hops
board-IsRanked c mc k j t hc hk first hj l =
    let (ec, et) = Leads-east c k j t mc first.hit hj l in rw (ec, et) (omega arith)

pub waiting-IsReady : IsReady waiting.queues
waiting-IsReady = record { fits = λ t. ground arith; quiet = λ t c ne. ground arith }

waiting-AllQueued : (Q : ℕ → Mc → Type 0) → Q 0 five → AllQueued Q waiting.queues
unfolding contents
waiting-AllQueued Q q t = elim (eq-cases t 0) [
  | inl e ↦ rw e (q, tt)
  | inr ne ↦ rw (==_ne t 0 ne) tt
]

flush_mc_queues-IsFlushed_example : IsFlushed board (flush_mc_queues board 1025 waiting)
unfolding board
flush_mc_queues-IsFlushed_example =
    flush_mc_queues-IsFlushed board hops 2 1025 waiting board-HasLinks board-IsRanked (omega arith)
      (omega arith) waiting-IsReady
      (waiting-AllQueued (λ t mc. t < 2 → hops t mc < 2) (λ h. omega arith)) (λ t lt. inr refl)

route_mc_cases_example :
    ((k : ℕ) × (k < num_routes)
      × IsFirst board 0 five 0 k
      × (route_mc board 0 five waiting ≡ forward board 0 (board.routes 0 k) five waiting))
    ⊎ (NoneMatches board 0 five × (route_mc board 0 five waiting ≡ waiting))
route_mc_cases_example = route_mc_cases board 0 five waiting

forward_sent_example :
    (forward board 0 east_and_core five waiting).sent
    ≡ waiting.sent ++ core_datagrams board 0 east_and_core five num_cpus 0
forward_sent_example = forward_sent board 0 east_and_core five waiting

five-Leads : Leads board 0 east_and_core five 0 1
unfolding board target_value
five-Leads = (refl, refl)

forward_reached_example :
    contents ((forward board 0 east_and_core five waiting).queues 1 0)
    ≡ enqueue (contents (waiting.queues 1 0)) five
unfolding board
forward_reached_example =
    forward_reached board 0 east_and_core five 0 1 waiting board-HasLinks (omega arith)
      (omega arith) five-Leads

-- No link of the route leads back to chip 0.
forward_other_example : (forward board 0 east_and_core five waiting).queues 0 0 ≡ waiting.queues 0 0
forward_other_example =
    forward_other board 0 east_and_core five 0 0 waiting
      (λ j hj. inl (λ l. omega (arith, target_of_link j 0 hj l.0 l.1)))
