-- ===== src/Core/Reply.antt =====
-- What a core does with READ and WRITE requests (`read_sdp`, spin_emu_api.c).
use spi_nnaker_emulator.Base.{
  ℕ, ◌%◌, ◌+◌, ◌<◌, ◌≤◌, ◌^◌, ◌≡◌, ◌≢◌, ◌⊎◌, ◌==◌, ==_refl, ==_ne, if◌then◌else◌, ◌∙◌, ap, inl, inr,
  refl, arith, false, true, [], ◌∷◌, ◌++◌, some, length, drop, take, All, All-take, take-append,
  append-nil, u16,
}
use spi_nnaker_emulator.Base.Outcome.{Outcome, ok, fault, ◌>>=◌}
use spi_nnaker_emulator.Grid.{get_chip_id}
use spi_nnaker_emulator.Sdp.Message.{Msg, buf_size, overlay, arg_bytes}
use spi_nnaker_emulator.Sdp.Overlay.{IsByte, arg_bytes-overlay}
use spi_nnaker_emulator.Sdp.Layout.{length-take}
use spi_nnaker_emulator.Dispatcher.Commands.{asserted, packet_write, packet_read}
use spi_nnaker_emulator.Core.Memory.{
  Bytes, all_mapped, width, emu_addr, bad_access, core_write, core_read,
}
use spi_nnaker_emulator.Core.Map.{core_maps, is_mapped, sysram_base}
use spi_nnaker_emulator.Core.Isolation.{emu_addr_unmapped}
use spi_nnaker_emulator.Core.Access.{
  Written, covered, covered-le, arg2-le, core_write_fault, core_read_fault, core_write_lem,
  core_read-write,
}
use spi_nnaker_emulator.Core.Packets.{Core, Callbacks, reply, take_sdp}

-- The core has written the data of `m` to its memory and has sent one message to where the request
-- `g` came from, with return code 128 and the bytes that were written, and has changed in nothing
-- else.
pub record IsAnswered (m g : Msg) (s s' : Core) : Type 0 where
  pub answer : Msg
  pub to_port : answer.dest_port ≡ g.srce_port
  pub to_addr : answer.dest_addr ≡ g.srce_addr
  pub code : answer.cmd_rc ≡ 128
  pub size : answer.length ≡ g.arg2 + 12
  pub bytes : take (covered m) (arg_bytes answer) ≡ take (covered m) m.body
  pub written : Written (emu_addr m.arg1) (covered m) m.body s.mem s'.mem
  pub only : s' ≡ record s { mem = s'.mem; sent = s.sent ++ answer ∷ [] }

if_eq {ℓ} : {A : Type ℓ} (a b : ℕ) (x y : A) → a ≡ b → (if a == b then x else y) ≡ x
if_eq a b x y e = rw (e, ==_refl b) refl

if_ne {ℓ} : {A : Type ℓ} (a b : ℕ) (x y : A) → a ≢ b → (if a == b then x else y) ≡ y
if_ne a b x y ne = rw (==_ne a b ne) refl

module _ (cback : Callbacks) (now at : ℕ) (m : Msg) (s : Core) where
  take_sdp-write :
      (mem' : Bytes)
      → m.cmd_rc ≡ packet_write
      → core_write (core_maps s.chip s.core) m s.mem
        ≡ ok (m.arg2, record m { arg1 = emu_addr m.arg1 }, mem')
      → take_sdp cback now at m s ≡ ok (record s { mem = mem' })
  unfolding take_sdp
  take_sdp-write mem' w e =
      if_eq m.cmd_rc packet_write _ _ w
      ∙ ap (λ (o : Outcome (ℕ × Msg × Bytes)). o >>= λ r. ok (record s { mem = r.2 })) e

  take_sdp-read :
      (id n : ℕ) (m' : Msg)
      → get_chip_id s.dims s.chip ≡ some id
      → m.cmd_rc ≡ packet_read
      → core_read (core_maps s.chip s.core) m s.mem ≡ ok (n, m')
      → take_sdp cback now at m s ≡ ok (reply id n m' s)
  unfolding take_sdp
  take_sdp-read id n m' on_board r e =
      if_ne m.cmd_rc packet_write _ _ (λ w. omega (arith, r, w))
      ∙ if_eq m.cmd_rc packet_read _ _ r
      ∙ ap
          (λ (o : Outcome (ℕ × Msg)).
            o >>= λ r. asserted (get_chip_id s.dims s.chip) >>= λ i. ok (reply i (r.0) (r.1) s))
          e
      ∙ ap (λ o. asserted o >>= λ i. ok (reply i n m' s)) on_board

-- A core on a chip of the board that handles a WRITE request and then a READ request of the same
-- address, length and access type, a length of at most 256, a known type and bytes in its maps,
-- has stored the data, its length rounded down to whole elements, at the translated address and no
-- other byte, and has sent one message to where the READ came from, with return code 128 and the
-- data that was written behind the header; it has changed in nothing else. The data of the WRITE
-- has that many bytes, and the data of both messages are bytes.
pub take_sdp_write-read :
    (cback : Callbacks) (now at now' at' id : ℕ) (m g : Msg) (s : Core)
    → get_chip_id s.dims s.chip ≡ some id
    → m.cmd_rc ≡ packet_write
    → g.cmd_rc ≡ packet_read
    → bad_access m ≡ false
    → all_mapped (core_maps s.chip s.core) (emu_addr m.arg1) (covered m) ≡ true
    → (g.arg1 ≡ m.arg1) × (g.arg2 ≡ m.arg2) × (g.arg3 ≡ m.arg3)
    → covered m ≤ length m.body
    → length g.body ≡ buf_size
    → All IsByte m.body
    → All IsByte g.body
    → (s₁ s₂ : Core) × (take_sdp cback now at m s ≡ ok s₁)
      × (take_sdp cback now' at' g s₁ ≡ ok s₂)
      × IsAnswered m g s s₂
unfolding reply overlay
take_sdp_write-read cback now at now' at' id m g s on_board w r good mapped same fits whole bytes
      bytes' =
    let (mem', run, written) = core_write_lem (core_maps s.chip s.core) m s.mem good mapped in
    let s₁ : Core = record s { mem = mem' } in
    let g' : Msg = record g { arg1 = emu_addr m.arg1 } in
    let bs = take (covered m) m.body in
    let short : length bs ≡ covered m = length-take (covered m) m.body fits in
    let few = covered-le m good in
    (
      s₁,
      reply id m.arg2 (overlay bs g') s₁,
      take_sdp-write cback now at m s mem' w run,
      take_sdp-read cback now' at' g s₁ id m.arg2 (overlay bs g') on_board r
          (core_read-write (core_maps s.chip s.core) m g s.mem mem' good mapped same fits written),
      record {
        answer = record (overlay bs g') {
          dest_port = g.srce_port;
          dest_addr = g.srce_addr;
          srce_port = s.core % 256;
          srce_addr = u16 id;
          cmd_rc = 0x80;
          length = u16 (m.arg2 + 12);
        };
        to_port = refl;
        to_addr = refl;
        code = refl;
        size = omega (arith, same.1, arg2-le m good);
        bytes =
            ap (take (covered m)) (
              arg_bytes-overlay bs g' (omega (arith, short, few)) whole
                (All-take IsByte (covered m) m.body bytes) bytes')
            ∙ take-append bs (drop (length bs) (arg_bytes g')) 0 (covered m) (omega (arith, short))
            ∙ append-nil bs;
        written = written;
        only = refl;
      },
    )

core_maps_unmapped :
    (chip core a : ℕ) → sysram_base ≤ a → a < 2 ^ 32 → core_maps chip core (emu_addr a) ≡ false
unfolding core_maps
core_maps_unmapped chip core a lo hi = ap is_mapped (emu_addr_unmapped chip core a lo hi)

-- A READ or a WRITE request of at least one element, a length of at most 256 and a known type, at
-- an address of 32 bits from SYSRAM_BASE on, where the board has its system RAM, makes the core
-- access an address that it does not map.
pub take_sdp_unmapped :
    (cback : Callbacks) (now at : ℕ) (m : Msg) (s : Core)
    → (m.cmd_rc ≡ packet_write) ⊎ (m.cmd_rc ≡ packet_read)
    → bad_access m ≡ false
    → width m.arg3 ≤ m.arg2
    → sysram_base ≤ m.arg1
    → m.arg1 < 2 ^ 32
    → take_sdp cback now at m s ≡ fault
unfolding take_sdp
take_sdp_unmapped cback now at m s (inl w) good some_byte lo hi =
    let e =
      core_write_fault _ m s.mem good some_byte (core_maps_unmapped s.chip s.core m.arg1 lo hi) in
    if_eq m.cmd_rc packet_write _ _ w
    ∙ ap (λ (o : Outcome (ℕ × Msg × Bytes)). o >>= λ r. ok (record s { mem = r.2 })) e
take_sdp_unmapped cback now at m s (inr r) good some_byte lo hi =
    if_ne m.cmd_rc packet_write _ _ (λ w. omega (arith, r, w))
    ∙ if_eq m.cmd_rc packet_read _ _ r
    ∙ ap
        (λ (o : Outcome (ℕ × Msg)).
          o >>= λ r. asserted (get_chip_id s.dims s.chip) >>= λ i. ok (reply i (r.0) (r.1) s))
        (core_read_fault _ m s.mem good some_byte (core_maps_unmapped s.chip s.core m.arg1 lo hi))
