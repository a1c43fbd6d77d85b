-- ===== src/Wire.antt =====
-- The datagrams between the cores and the dispatcher (spin_emu_util.c, and the parsing in
-- spin_emu_dispatcher.c and spin_emu_api.c), as lists of bytes.
pub mod RoundTrip
use spi_nnaker_emulator.Base.{
  ℕ, ◌+◌, ◌^◌, ◌==◌, Bool, true, false, not, ◌||◌, List, [], ◌∷◌, ◌++◌, Option, none, some, ltb,
  if◌then◌else◌, u32, le_bytes, from_le, length, take, Table, update,
}
use spi_nnaker_emulator.Base.Outcome.{Outcome, ok, died, fault, ◌>>=◌, ◌>>◌, assert, in_bounds}
use spi_nnaker_emulator.McQueue.{Mc}

abbrev pub packet_mc : ℕ
packet_mc = 0x42

abbrev pub packet_sdp : ℕ
packet_sdp = 0x43

abbrev pub packet_route : ℕ
packet_route = 0x44

abbrev pub packet_finished : ℕ
packet_finished = 0x48

abbrev pub num_routes : ℕ
num_routes = 1024

-- `struct spin_emu_route_t`.
pub record Route : Type 0 where
  pub key : ℕ
  pub mask : ℕ
  pub route : ℕ

-- The bytes that `spin_emu_send_mc` sends: the first 4 or 8 bytes of the struct behind the type.
unfoldable pub send_mc : Mc → List ℕ
send_mc mc =
    let len = if not (mc.has_payload == 0) then 8 else 4 in
    packet_mc ∷ take len (le_bytes mc.key ++ (le_bytes mc.payload ++ le_bytes mc.has_payload))

-- The bytes that `spin_emu_send_route` sends.
unfoldable pub send_route : ℕ → Route → List ℕ
send_route entry r =
    packet_route ∷ (le_bytes entry ++ (le_bytes r.key ++ (le_bytes r.mask ++ le_bytes r.route)))

-- The packet that `dispatch_mc` reads behind the type byte; `len` other than 4 or 8 fails its
-- assertion.
unfoldable pub parse_mc : List ℕ → Outcome Mc
parse_mc (a ∷ b ∷ c ∷ d ∷ []) = ok (record { key = from_le a b c d; payload = 0; has_payload = 0 })
parse_mc (a ∷ b ∷ c ∷ d ∷ e ∷ f ∷ g ∷ h ∷ []) =
    ok (record { key = from_le a b c d; payload = from_le e f g h; has_payload = 1 })
parse_mc _ = died

-- The words of a `struct spin_emu_route_packet`, of 16 bytes.
unfoldable pub parse_route : List ℕ → Outcome (ℕ × Route)
parse_route
      (i ∷ i' ∷ i'' ∷ i''' ∷ k ∷ k' ∷ k'' ∷ k''' ∷ m ∷ m' ∷ m'' ∷ m''' ∷ r ∷ r' ∷ r'' ∷ r''' ∷ []) =
    ok (
      from_le i i' i'' i''',
      record {
        key = from_le k k' k'' k''';
        mask = from_le m m' m'' m''';
        route = from_le r r' r'' r''';
      },
    )
parse_route _ = died

-- `store_route`. The index is an `int`: a word from 2 ^ 31 on is negative, passes the assertion
-- that it is below NUM_ROUTES, and the copy goes in front of the table.
unfoldable pub store_route : Table Route → ℕ → List ℕ → Outcome (Table Route)
unfolding parse_route
store_route routes chip buf = do
  p ← parse_route buf
  let index = p.0
  let negative = not (ltb index (2 ^ 31))
  assert (negative || ltb index num_routes)
  in_bounds (not negative)
  ok (update routes chip index p.1)

-- APP_MC_ENTRIES.
abbrev pub app_mc_entries : ℕ
app_mc_entries = 1023

-- `spin1_set_mc_table_entry`: what is sent and SUCCESS (1) or FAILURE (0). Entry 0 is reserved.
unfoldable pub set_mc_table_entry : ℕ → Route → Option (List ℕ) × ℕ
unfolding send_route
set_mc_table_entry entry r =
    if ltb entry app_mc_entries then (some (send_route (u32 (entry + 1)) r), 1) else (none, 0)
