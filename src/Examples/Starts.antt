-- ===== src/Examples/Starts.antt =====
-- The start of a board of two chips, of its cores and their packets.
use spi_nnaker_emulator.Base.{
  ℕ, ◌+◌, ◌*◌, ◌≡◌, ◌≢◌, refl, ap, ap₂, ◌∙◌, eq-cases, inr, ==_refl, ==_ne, arith, inl, true, false,
  Bool, List, [], ◌∷◌, map, some, if◌then◌else◌, ◌==◌,
}
use spi_nnaker_emulator.Base.Int.{pos}
use spi_nnaker_emulator.Base.Outcome.{ok}
use spi_nnaker_emulator.Grid.{Dims}
use spi_nnaker_emulator.McQueue.{Mc}
use spi_nnaker_emulator.Spawn.{Sockets, Children, start_cores}
use spi_nnaker_emulator.Start.Cores.{IsStarted, start_cores-IsStarted}
use spi_nnaker_emulator.Core.Packets.{Core}
use spi_nnaker_emulator.Core.Receive.{read_packets}
use spi_nnaker_emulator.Core.Arrivals.{
  packet, message, arrival, handle_all, IsQueued, read_packets-handle_all, read_packets-IsQueued,
}
use spi_nnaker_emulator.Events.{Event}
use spi_nnaker_emulator.Events.Drain.{total}
use spi_nnaker_emulator.Events.Order.{IsOrdered}
use spi_nnaker_emulator.Core.Runtime.{Runtime}
use spi_nnaker_emulator.Core.Simulate.{start_round, spin1_start}
use spi_nnaker_emulator.Core.Rounds.{spin1_start-IsOrdered}
use spi_nnaker_emulator.Core.Lock.{FileLocks, root_aps}
use spi_nnaker_emulator.Core.Roots.{root_aps-first_of}
use spi_nnaker_emulator.Examples.Cores.{core_one, calls_nothing, scheduler}
use spi_nnaker_emulator.Examples.Programs.{runtime, print, atoi}
use spi_nnaker_emulator.Examples.Tags.{request}

abbrev two : Dims
two = record { chips_x = 2; chips_y = 1 }

-- Core `i` of chip `c` has the descriptors from 16 * `c` + 2 * `i` + 3 on.
start_cores-IsStarted_example :
    (s' : Sockets) × (ch : Children) × (start_cores two
        (λ c i. some (16 * c + 2 * i + 3, 16 * c + 2 * i + 4))
        (λ c i. some (100 + 8 * c + i))
        (record { dispatch = λ c i. 0; core = λ c i. 0 })
        (λ c i. 0)
      ≡ ok (s', ch))
    × IsStarted two (λ c i. (16 * c + 2 * i + 3, 16 * c + 2 * i + 4)) (λ c i. 100 + 8 * c + i) s' ch
start_cores-IsStarted_example =
    start_cores-IsStarted two (λ c i. (16 * c + 2 * i + 3, 16 * c + 2 * i + 4))
      (λ c i. 100 + 8 * c + i) (λ c i. some (16 * c + 2 * i + 3, 16 * c + 2 * i + 4))
      (λ c i. some (100 + 8 * c + i)) (record { dispatch = λ c i. 0; core = λ c i. 0 }) (λ c i. 0)
      (λ c i p q. refl) (λ c i p q. refl)

abbrev flash : Mc
flash = record { key = 0x1234; payload = 5; has_payload = 1 }

abbrev plain : Mc
plain = record { key = 7; payload = 0; has_payload = 0 }

read_packets-handle_all_example :
    read_packets calls_nothing
      (map arrival (packet flash ∷ message 0 0 4096 (request 1 2 3) ∷ []))
      core_one
    ≡ handle_all calls_nothing (packet flash ∷ message 0 0 4096 (request 1 2 3) ∷ []) core_one
read_packets-handle_all_example =
    read_packets-handle_all calls_nothing (packet flash ∷ message 0 0 4096 (request 1 2 3) ∷ [])
      core_one
      (
        record { key_fits = omega arith; payload_fits = omega arith },
        (
          record {
            length_fits = omega arith;
            checksum_fits = omega arith;
            dest_addr_fits = omega arith;
            srce_addr_fits = omega arith;
            cmd_rc_fits = omega arith;
            seq_fits = omega arith;
            arg1_fits = omega arith;
            arg2_fits = omega arith;
            arg3_fits = omega arith;
            pad_fits = omega arith;
            body_fits = refl;
          },
          tt,
        ),
      )

-- A core with a callback for multicast packets.
abbrev listening : Core
listening = record core_one {
  events = record { evinfo = λ j. record { priority = pos 2; cback = 17; queue = [] }; calls = [] };
}

read_packets-IsQueued_example :
    (s' : Core) × (read_packets calls_nothing
        (map arrival (map packet (flash ∷ plain ∷ [])))
        listening
      ≡ ok s')
    × IsQueued (flash ∷ plain ∷ []) listening s'
read_packets-IsQueued_example =
    read_packets-IsQueued calls_nothing (flash ∷ plain ∷ []) listening
      (
        record { key_fits = omega arith; payload_fits = omega arith },
        (record { key_fits = omega arith; payload_fits = omega arith }, tt),
      )
      (inl (omega arith), (inl (omega arith), tt)) (λ e. omega arith) refl

-- Callbacks that count the ticks of the simulation.
abbrev counting : Event → Runtime → Runtime
counting ev s = record s { sim_time = s.sim_time + ev.arg1 }

spin1_start-IsOrdered_example :
    (s' : Runtime) × (picked : List (ℕ × Event)) × (spin1_start
        (total scheduler.evinfo + 1)
        counting
        (λ k s. s)
        0
        runtime
      ≡ spin1_start 1 counting (λ k s. s) (0 + total scheduler.evinfo) s')
    × IsOrdered scheduler s'.events picked
    × (start_round counting s' ≡ ok s')
spin1_start-IsOrdered_example =
    spin1_start-IsOrdered counting (λ k s. s) 1 0 runtime
      (record { events = λ ev s. refl; goes_on = λ ev s. refl }) (λ j r h. refl) (λ j. ground arith)
      refl

abbrev same_text : List ℕ → List ℕ → Bool
same_text [] [] = true
same_text [] (y ∷ ys) = false
same_text (x ∷ xs) [] = false
same_text (x ∷ xs) (y ∷ ys) = if x == y then same_text xs ys else false

pub same_text_refl : (xs : List ℕ) → same_text xs xs ≡ true
same_text_refl [] = refl
same_text_refl (x ∷ xs) = rw (==_refl x) (same_text_refl xs)

same_text_ne : (xs ys : List ℕ) → xs ≢ ys → same_text xs ys ≡ false
same_text_ne [] [] ne = absurd (ne refl)
same_text_ne [] (y ∷ ys) ne = refl
same_text_ne (x ∷ xs) [] ne = refl
same_text_ne (x ∷ xs) (y ∷ ys) ne = elim (eq-cases x y) [
  | inl e ↦ rw (e, ==_refl y) (same_text_ne xs ys (λ e'. ne (ap₂ ◌∷◌ e e')))
  | inr d ↦ rw (==_ne x y d) refl
]

-- The names whose locks are held.
abbrev Held : Type 0
Held = List ℕ → Bool

abbrev answer : Bool → List ℕ → Held → Bool × Held
answer true name l = (false, l)
answer false name l = (true, λ name'. if same_text name name' then true else l name')

pub answer_others :
    (b : Bool) (name name' : List ℕ) (l : Held) → name ≢ name' → (answer b name l).1 name' ≡ l name'
answer_others true name name' l ne = refl
answer_others false name name' l ne =
    ap (λ b. if b then true else l name') (same_text_ne name name' ne)

abbrev pub locks : FileLocks
locks = record {
  Locks = Held;
  held = λ name l. l name;
  flock = λ name l. answer (l name) name l;
  flock_free = λ name l free. (
    ap (λ b. (answer b name l).0) free,
    ap (λ b. (answer b name l).1 name) free
        ∙ ap (λ b. if b then true else l name) (same_text_refl name),
  );
  flock_held = λ name l taken. ap (λ b. answer b name l) taken;
  flock_others = λ name name' l ne. answer_others (l name) name name' l ne;
}

root_aps-first_of_example :
    root_aps locks print (0x2F ∷ []) (0 ∷ 1 ∷ 0 ∷ 1 ∷ []) (λ name. false)
    ≡ true ∷ true ∷ false ∷ false ∷ []
root_aps-first_of_example =
    root_aps-first_of locks print (0x2F ∷ []) (λ a b e. ap atoi e) (0 ∷ 1 ∷ 0 ∷ 1 ∷ [])
      (λ name. false) (λ c. refl)
