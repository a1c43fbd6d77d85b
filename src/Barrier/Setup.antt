-- ===== src/Barrier/Setup.antt =====
-- The entries of `barrier_setup` (spin_emu_api.c) on a square of chips.
use spi_nnaker_emulator.Base.{
  ℕ, ◌+◌, ◌*◌, ◌%◌, ◌^◌, ◌<◌, ◌≤◌, ◌≡◌, refl, ap, ◌∙◌, sym, arith, ◌==◌, not, ◌&&◌, ◌||◌, List, [],
  ◌∷◌, ◌++◌, length, some, if◌then◌else◌, shl, shr, low_bits, has_bit, bit_or, bit_or-low,
  has_bit-bit_or, has_bit-zero, get_or,
}
use spi_nnaker_emulator.Base.Outcome.{ok}
use spi_nnaker_emulator.Grid.{Dims, num_cpus, num_links, get_chip_id, p2p_link}
use spi_nnaker_emulator.Grid.Coordinates.{index-lt}
use spi_nnaker_emulator.Core.Packets.{go_key, rdygo_key, rdy2_key}
use spi_nnaker_emulator.Barrier.{
  Barrier, core_route, app_cores, local_cores, off_links, active_chips, barrier_entry,
  barrier_setup,
}
use spi_nnaker_emulator.Barrier.Routes.{
  read_map_lem, shl-pow, tree_links, core_bits, local_cores-Adds,
}
use spi_nnaker_emulator.Barrier.Count.{others, active_chips_lem}
use spi_nnaker_emulator.Barrier.Square.{
  side_lem, parent_link, square_links, core_route-bit, if_ok, rdygo_lem, rdy2_lem, shl-bit,
  parent_link-lt,
}

-- What the entries of the barrier are on the chip at (x, y), for core `core`.
pub record IsSetUp (core_map : List ℕ) (k x y core : ℕ) (b b' : Barrier) : Type 0 where
  pub go_route : ℕ
  pub rdygo_route : ℕ
  pub rdy2_route : ℕ
  pub sent :
      b'.entries
      ≡ b.entries
        ++ barrier_entry 1 rdygo_key rdygo_route
          ∷ barrier_entry 3 rdy2_key rdy2_route
          ∷ barrier_entry 0 go_key go_route
          ∷ []
  pub go_bits :
      (j : ℕ)
      → has_bit go_route j ≡ (
          core_bits 7 1 (app_cores (get_or core_map (x * 2 ^ k + y) 0)) j
          || tree_links core_map (2 ^ k) (x * 2 ^ k + y) x y j)
  pub rdygo_bits :
      (j : ℕ)
      → has_bit rdygo_route j ≡ (
          (not (x == 0 && y == 0) && (y + num_links) % 32 == j)
          || tree_links core_map (2 ^ k) (x * 2 ^ k + y) x y j)
  pub rdy2_bits :
      (j : ℕ)
      → has_bit rdy2_route j
        ≡ (if x == 0 && y == 0 then core + num_links == j else parent_link x y == j)
  pub is_root : b'.root_chip ≡ (x == 0 && y == 0)
  pub waits_for :
      b'.nchips
      ≡ (if x == 0 && y == 0 then b.nchips + others core_map (x * 2 ^ k + y) else b.nchips)

module _ (d : Dims) (chip core : ℕ) (core_map : List ℕ) (k x y : ℕ) (small : k ≤ 8)
    (whole : length core_map ≡ 2 ^ k * 2 ^ k) (hx : x < 2 ^ k) (hy : y < 2 ^ k)
    (id : get_chip_id d chip ≡ some (x * 2 ^ 8 + y)) where
  place : bit_or (shl x k) y ≡ x * 2 ^ k + y
  place =
      let lt = index-lt x y (2 ^ k) (2 ^ k) hx hy in
      let fits : shl x k ≡ x * 2 ^ k = omega (arith, lt, (side_lem k small).2) in
      ap (λ w. bit_or w y) fits ∙ bit_or-low x k y hy

  on_map : x * 2 ^ k + y < length core_map
  on_map = omega (arith, index-lt x y (2 ^ k) (2 ^ k) hx hy)

  column : shr (x * 2 ^ 8 + y) 8 ≡ x
  column = omega (arith, (side_lem k small).1)

  row : low_bits (x * 2 ^ 8 + y) 8 ≡ y
  row = omega (arith, (side_lem k small).1)

  set_up_with :
      (off nchips rdy2 : ℕ) (b : Barrier)
      → off_links core_map (2 ^ k) (x * 2 ^ k + y) x y ≡ ok off
      → (if x * 2 ^ 8 + y == 0
          then active_chips (2 ^ k * 2 ^ k) core_map (x * 2 ^ k + y) b.nchips
          else ok b.nchips)
        ≡ ok nchips
      → (if x * 2 ^ 8 + y == 0 then ok (core_route core) else ok (shl 1 (parent_link x y)))
        ≡ ok rdy2
      → barrier_setup d chip core (2 ^ k * 2 ^ k) core_map b
        ≡ ok (record b {
          root_chip = x * 2 ^ 8 + y == 0;
          my_chip = x * 2 ^ k + y;
          nchips = nchips;
          my_ncores =
              (local_cores (app_cores (get_or core_map (x * 2 ^ k + y) 0)) (0, b.my_ncores)).1;
          entries =
              b.entries
              ++ barrier_entry 1 rdygo_key
                  (if x * 2 ^ 8 + y == 0 then off else bit_or (core_route (x * 2 ^ 8 + y)) off)
                ∷ barrier_entry 3 rdy2_key rdy2
                ∷ barrier_entry 0 go_key (
                    bit_or
                      ((local_cores
                        (app_cores (get_or core_map (x * 2 ^ k + y) 0))
                        (0, b.my_ncores)).0)
                      off)
                ∷ [];
        })
  unfolding barrier_setup p2p_link
  set_up_with off nchips rdy2 b e₁ e₂ e₃ =
      rw
        (
          id,
          (side_lem k small).0,
          shl-pow k (omega arith),
          column,
          row,
          place,
          read_map_lem core_map (x * 2 ^ k + y) on_map,
          e₁,
          e₂,
          e₃,
        )
        refl

  at_root : (x * 2 ^ 8 + y == 0) ≡ (x == 0 && y == 0)
  at_root = ground arith

-- On the chip at (x, y) of a square of 2^k by 2^k chips, k at most 8, whose core map has an entry
-- for each chip, `barrier_setup` on a core below 8, with a count of active chips below 2^31, reads
-- the core map within its bounds and sends three entries. The GO entry 0 has the bits of the
-- chip's application cores and of the tree's links to chips with application cores. The RDYGO
-- entry 1 has those links, and on every chip but the root the bit (y + 6) modulo 32. The RDY2
-- entry 3 has the bit of this core on the root chip and of the link towards it on every other. The
-- root chip adds the other chips with application cores to the chips that it waits for.
pub barrier_setup-IsSetUp :
    (d : Dims) (chip core : ℕ) (core_map : List ℕ) (k x y : ℕ) (b : Barrier)
    → k ≤ 8
    → length core_map ≡ 2 ^ k * 2 ^ k
    → x < 2 ^ k
    → y < 2 ^ k
    → get_chip_id d chip ≡ some (x * 2 ^ 8 + y)
    → core < num_cpus
    → b.nchips < 2 ^ 31
    → (b' : Barrier) × (barrier_setup d chip core (2 ^ k * 2 ^ k) core_map b ≡ ok b')
      × IsSetUp core_map k x y core b b'
barrier_setup-IsSetUp d chip core core_map k x y b small whole hx hy id hc hn =
    let (off, e, adds) = square_links core_map (2 ^ k) x y whole hx hy in
    let me = x * 2 ^ k + y in
    let c = x * 2 ^ 8 + y == 0 in
    let loc = local_cores (app_cores (get_or core_map me 0)) (0, b.my_ncores) in
    let tree =
      λ (j : ℕ). adds j ∙ ap (λ z. z || tree_links core_map (2 ^ k) me x y j) (has_bit-zero j) in
    let cores = λ (j : ℕ).
      local_cores-Adds (app_cores (get_or core_map me 0)) b.my_ncores j
      ∙ ap (λ z. z || core_bits 7 1 (app_cores (get_or core_map me 0)) j) (has_bit-zero j) in
    let root = at_root d chip core core_map k x y small whole hx hy id in
    let nchips = b.nchips + others core_map me in
    let rdy2 = if c then core_route core else shl 1 (parent_link x y) in
    let (s, same, big) = side_lem k small in
    (
      record b {
        root_chip = c;
        my_chip = me;
        nchips = if c then nchips else b.nchips;
        my_ncores = loc.1;
        entries =
            b.entries
            ++ barrier_entry 1 rdygo_key
                (if c then off else bit_or (core_route (x * 2 ^ 8 + y)) off)
              ∷ barrier_entry 3 rdy2_key rdy2
              ∷ barrier_entry 0 go_key (bit_or (loc.0) off)
              ∷ [];
      },
      set_up_with d chip core core_map k x y small whole hx hy id off
          (if c then nchips else b.nchips) rdy2 b e
          (if_ok c _ nchips b.nchips
            (active_chips_lem (2 ^ k * 2 ^ k) core_map me b.nchips (sym whole) (omega arith)))
          (if_ok c (ok (core_route core)) (core_route core) (shl 1 (parent_link x y)) refl),
      record {
        go_route = bit_or (loc.0) off;
        rdygo_route = if c then off else bit_or (core_route (x * 2 ^ 8 + y)) off;
        rdy2_route = rdy2;
        sent = refl;
        go_bits = λ j.
            has_bit-bit_or (loc.0) off j
            ∙ ap (λ z. z || has_bit off j) (cores j)
            ∙ ap (λ z. core_bits 7 1 (app_cores (get_or core_map me 0)) j || z) (tree j);
        rdygo_bits = λ j.
            rdygo_lem c off (core_route (x * 2 ^ 8 + y)) ((y + num_links) % 32) j
              (tree_links core_map (2 ^ k) me x y j) (tree j)
              (core_route-bit (x * 2 ^ 8 + y) ((y + num_links) % 32) j (omega arith))
            ∙ ap (λ z. (not z && (y + num_links) % 32 == j) || tree_links core_map (2 ^ k) me x y j)
                root;
        rdy2_bits = λ j.
            rdy2_lem c (core_route core) (shl 1 (parent_link x y)) j (core + num_links == j)
              (parent_link x y == j) (core_route-bit core (core + num_links) j (omega arith))
              (shl-bit (parent_link x y) j (parent_link-lt x y))
            ∙ ap (λ z. if z then core + num_links == j else parent_link x y == j) root;
        is_root = root;
        waits_for = ap (λ z. if z then nchips else b.nchips) root;
      },
    )
