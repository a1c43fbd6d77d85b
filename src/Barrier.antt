-- ===== src/Barrier.antt =====
-- The barrier that the cores of an application meet at before it starts (spin_emu_api.c):
-- `spin1_set_core_map`, `barrier_setup` and `rts_init`, with the routing entries that they send, and
-- `barrier_wait`. The core map of the application is a list of words; a read behind its end is a
-- fault. A shift by 32 or more is the one of i686, which takes the count modulo 32.
pub mod Routes
pub mod Count
pub mod Square
pub mod Setup
pub mod Branches
pub mod Tree
pub mod Acyclic
pub mod Go
pub mod Release
pub mod Wait
pub mod Loops
pub mod Passing
use spi_nnaker_emulator.Base.{
  ℕ, zero, suc, ◌+◌, ◌-◌, ◌*◌, ◌^◌, ◌%◌, ◌==◌, Bool, true, false, not, ◌&&◌, List, [], ◌∷◌, ◌++◌,
  Option, none, some, ltb, if◌then◌else◌, u32, shl, shr, low_bits, has_bit, bit_and, bit_or,
  get_elem?, count_up, count_up_ok,
}
use spi_nnaker_emulator.Base.Outcome.{Outcome, ok, fault, ◌>>=◌}
use spi_nnaker_emulator.Grid.{Dims, num_cpus, num_links, get_chip_id, p2p_get}
use spi_nnaker_emulator.Wire.{Route}
use spi_nnaker_emulator.Dispatcher.Commands.{asserted}
use spi_nnaker_emulator.Core.Packets.{go_key, rdygo_key, rdy1_key, rdy2_key}

-- The links.
abbrev pub east : ℕ
east = 0

abbrev pub north_east : ℕ
north_east = 1

abbrev pub north : ℕ
north = 2

-- BARRIER_MASK.
abbrev pub barrier_mask : ℕ
barrier_mask = 0xFFFFFFFF

-- CORE_ROUTE(core).
unfoldable pub core_route : ℕ → ℕ
core_route core = shl 1 (u32 (core + num_links) % 32)

-- P2P_ROUTE(addr) for the core on chip `chip`; `none` is a failed assertion.
unfoldable pub p2p_route : Dims → ℕ → ℕ → Outcome ℕ
unfolding p2p_get
p2p_route d chip addr = asserted (p2p_get d chip addr) >>= λ link. ok (shl 1 link)

-- The static variables of the barrier in a core, and the entries sent by `spin_emu_send_route`.
pub record Barrier : Type 0 where
  pub root_ap : Bool
  pub root_chip : Bool
  pub my_chip : ℕ
  pub nchips : ℕ
  pub ncores : ℕ
  pub my_ncores : ℕ
  pub entries : List (ℕ × Route)

-- `core_map[i]`.
unfoldable pub read_map : List ℕ → ℕ → Outcome ℕ
read_map core_map i = elim (get_elem? core_map i) [ none ↦ fault | some w ↦ ok w ]

-- The application cores in a word of the core map: all but the monitor.
abbrev pub app_cores : ℕ → ℕ
app_cores w = bit_and w 0xFFFFFFFE

-- The loop over the cores of a chip in `spin1_set_core_map`.
unfoldable pub count_cores : ℕ → ℕ → ℕ
unfolding count_up
count_cores cores nc =
    count_up (num_cpus - 1) 1 (λ j nc. if has_bit cores j then u32 (nc + 1) else nc) nc

-- Its loop over the chips.
unfoldable pub count_map : ℕ → List ℕ → Outcome ℕ
unfolding count_up_ok read_map count_cores
count_map chips core_map =
    count_up_ok chips 0 (λ i nc. read_map core_map i >>= λ cores. ok (count_cores cores nc)) 0

-- The loop for the highest bit of `chips`, from bit `n` - 1 down.
unfoldable pub high_bit : ℕ → ℕ → Option ℕ
high_bit zero chips = none
high_bit (suc n) chips = elim (has_bit chips n) [ true ↦ some n | false ↦ high_bit n chips ]

-- `bsize`.
unfoldable pub side_bits : ℕ → ℕ
unfolding high_bit
side_bits chips = elim (high_bit 32 chips) [ none ↦ 0 | some n ↦ shr n 1 ]

-- The routes to the application cores of this chip, and their number.
unfoldable pub local_cores : ℕ → ℕ × ℕ → ℕ × ℕ
unfolding count_up core_route
local_cores my_cores acc =
    count_up (num_cpus - 1) 1
      (λ v a. if has_bit my_cores v then (bit_or (a.0) (core_route v), u32 (a.1 + 1)) else a) acc

-- The link of the spanning tree to a chip, if the border allows it and that chip has cores.
unfoldable pub tree_link : Bool → List ℕ → ℕ → ℕ → ℕ → Outcome ℕ
unfolding read_map
tree_link inside core_map i link route =
    if inside
    then (read_map core_map i >>= λ w.
        ok (if app_cores w == 0 then route else bit_or route (shl 1 link)))
    else ok route

-- `off_route`.
unfoldable pub off_links : List ℕ → ℕ → ℕ → ℕ → ℕ → Outcome ℕ
unfolding tree_link
off_links core_map bside my_chip my_x my_y =
    tree_link (my_x == 0 && ltb my_y (bside - 1)) core_map (my_chip + 1) north 0 >>= λ r.
    tree_link (ltb my_x (bside - 1) && my_y == 0) core_map (my_chip + bside) east r >>= λ r'.
    tree_link (ltb my_y (bside - 1) && ltb my_x (bside - 1)) core_map (my_chip + bside + 1)
      north_east r'

-- The loop for the number of active chips.
unfoldable pub active_chips : ℕ → List ℕ → ℕ → ℕ → Outcome ℕ
unfolding count_up_ok read_map
active_chips chips core_map my_chip nchips =
    count_up_ok chips 0
      (λ i n.
        if i == my_chip
        then ok n
        else (read_map core_map i >>= λ w. ok (if app_cores w == 0 then n else u32 (n + 1))))
      nchips

-- An entry of the barrier.
abbrev pub barrier_entry : ℕ → ℕ → ℕ → ℕ × Route
barrier_entry index key route = (index, record { key = key; mask = barrier_mask; route = route })

-- `barrier_setup` on core `core` of chip `chip`.
unfoldable pub barrier_setup : Dims → ℕ → ℕ → ℕ → List ℕ → Barrier → Outcome Barrier
unfolding side_bits local_cores off_links active_chips core_route p2p_route get_chip_id read_map
barrier_setup d chip core chips core_map b = do
  id ← asserted (get_chip_id d chip)
  let bsize = side_bits chips
  let bside = shl 1 bsize
  let my_x = shr id 8
  let my_y = low_bits id 8
  let my_chip = bit_or (shl my_x bsize) my_y
  w ← read_map core_map my_chip
  let loc = local_cores (app_cores w) (0, b.my_ncores)
  off ← off_links core_map bside my_chip my_x my_y
  let root = id == 0
  nchips ← if root then active_chips chips core_map my_chip b.nchips else ok b.nchips
  rdy2 ← if root then ok (core_route core) else p2p_route d chip 0
  let rdygo = if root then off else bit_or (core_route id) off
  ok (record b {
    root_chip = root;
    my_chip = my_chip;
    nchips = nchips;
    my_ncores = loc.1;
    entries =
        b.entries
        ++ barrier_entry 1 rdygo_key rdygo
          ∷ barrier_entry 3 rdy2_key rdy2
          ∷ barrier_entry 0 go_key (bit_or (loc.0) off)
          ∷ [];
  })

-- `spin1_set_core_map`.
unfoldable pub set_core_map : Dims → ℕ → ℕ → ℕ → List ℕ → Barrier → Outcome Barrier
unfolding count_map barrier_setup
set_core_map d chip core chips core_map b = count_map chips core_map >>= λ nc.
    let b' : Barrier = record b { ncores = nc } in
    if ltb 1 nc && b.root_ap then barrier_setup d chip core chips core_map b' else ok b'
