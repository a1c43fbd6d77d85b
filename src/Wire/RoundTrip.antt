-- ===== src/Wire/RoundTrip.antt =====
-- Datagrams from the senders (spin_emu_util.c) to the parsers (spin_emu_dispatcher.c).
use spi_nnaker_emulator.Base.{
  ℕ, ◌+◌, ◌^◌, ◌<◌, ◌≤◌, ◌≡◌, ◌∙◌, arith, List, none, some, from_le-le_bytes, Table, update,
  if◌then◌else◌, ltb, drop, ◌⊎◌, inl, inr, Bool-cases, u32, ◌==◌,
}
use spi_nnaker_emulator.Base.Outcome.{ok, died, fault}
use spi_nnaker_emulator.McQueue.{Mc}
use spi_nnaker_emulator.Wire.{
  Route, send_mc, send_route, parse_mc, parse_route, store_route, set_mc_table_entry, num_routes,
  app_mc_entries,
}

-- The words of a packet fit 32 bits.
pub record IsWord (mc : Mc) : Type 0 where
  pub key_fits : mc.key < 2 ^ 32
  pub payload_fits : mc.payload < 2 ^ 32

-- The packet that arrives: the payload of a packet without one is not sent.
abbrev pub received : Mc → Mc
received mc =
    if mc.has_payload == 0
    then record mc { payload = 0; has_payload = 0 }
    else record mc { has_payload = 1 }

-- `dispatch_mc` reads back the packet that `spin_emu_send_mc` sent, for a key and a payload of 32
-- bits; the payload of a packet without one arrives as 0.
pub parse_mc-send_mc : (mc : Mc) → IsWord mc → parse_mc (drop 1 (send_mc mc)) ≡ ok (received mc)
unfolding parse_mc send_mc
parse_mc-send_mc mc h = ground (arith, from_le-le_bytes mc.key, from_le-le_bytes mc.payload)

-- The words of a routing entry fit 32 bits.
pub record IsRoute (r : Route) : Type 0 where
  pub key_fits : r.key < 2 ^ 32
  pub mask_fits : r.mask < 2 ^ 32
  pub route_fits : r.route < 2 ^ 32

parse_route-send_route :
    (entry : ℕ) (r : Route)
    → entry < 2 ^ 32
    → IsRoute r
    → parse_route (drop 1 (send_route entry r)) ≡ ok (entry, r)
unfolding parse_route send_route
parse_route-send_route entry r h v = ground (
  arith,
  from_le-le_bytes entry,
  from_le-le_bytes r.key,
  from_le-le_bytes r.mask,
  from_le-le_bytes r.route,
)

-- For words of 32 bits, `store_route` writes the entry that `spin_emu_send_route` sent, at its
-- index, if that is below 1024; an index from 1024 on kills the dispatcher, and one that is
-- negative as an `int` makes it write outside the table.
pub store_route-send_route :
    (routes : Table Route) (chip entry : ℕ) (r : Route)
    → entry < 2 ^ 32
    → IsRoute r
    → store_route routes chip (drop 1 (send_route entry r)) ≡ (
        if ltb entry num_routes
        then ok (update routes chip entry r)
        else if ltb entry (2 ^ 31)
        then died
        else fault)
unfolding store_route
store_route-send_route routes chip entry r h v =
    rw (parse_route-send_route entry r h v) (ground arith)

-- The dispatcher stores what `spin1_set_mc_table_entry` accepts: for words of 32 bits, entry `e`
-- below 1023 of the application goes to entry `e + 1` of its chip, never to the reserved entry 0,
-- and the call answers 1. From 1023 on nothing is sent and the call answers 0.
pub store_route-set_mc_table_entry :
    (routes : Table Route) (chip entry : ℕ) (r : Route)
    → IsRoute r
    → ((entry < app_mc_entries)
        × ((set_mc_table_entry entry r).1 ≡ 1)
        × ((packet : List ℕ) × ((set_mc_table_entry entry r).0 ≡ some packet)
            × (store_route routes chip (drop 1 packet) ≡ ok (update routes chip (entry + 1) r))))
      ⊎ ((app_mc_entries ≤ entry) × (set_mc_table_entry entry r ≡ (none, 0)))
unfolding set_mc_table_entry
store_route-set_mc_table_entry routes chip entry r v =
    elim (Bool-cases (ltb entry app_mc_entries)) [
      | inl below ↦
          let fits : u32 (entry + 1) ≡ entry + 1 = ground arith in
          let stored = store_route-send_route routes chip (entry + 1) r (ground arith) v in
          inl (
            ground arith,
            ground arith,
            (send_route (u32 (entry + 1)) r, ground arith, rw fits (stored ∙ ground arith)),
          )
      | inr above ↦ inr (ground arith, ground arith)
    ]
