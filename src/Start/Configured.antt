-- ===== src/Start/Configured.antt =====
-- The board that `main` (spin_emu_main.c) sets up, or that a P2PC message sets up later.
use spi_nnaker_emulator.Base.{
  ℕ, ◌*◌, ◌^◌, arith, Table, ◌<◌, ◌≡◌, refl, ap, ◌∙◌, false, List, Option, none, some, ntohl,
  low_bits, shr,
}
use spi_nnaker_emulator.Base.Outcome.{ok}
use spi_nnaker_emulator.IpTag.{iptag_init}
use spi_nnaker_emulator.Sdp.Message.{Msg}
use spi_nnaker_emulator.Dispatcher.State.{Dispatcher, Memory}
use spi_nnaker_emulator.Dispatcher.Process.{process_p2pc}
use spi_nnaker_emulator.Dispatcher.Loop.{boot}
use spi_nnaker_emulator.Dispatcher.Steps.{
  IsZeroed, IsServed, IsBoard, boot-IsRunning, cmd_p2pc-IsBoard, if_false,
}
use spi_nnaker_emulator.Start.{
  config_file, x_chips, y_chips, slow_down_timer, read_values, read_config, emulator_main,
}

-- The values of a configuration, where it has all three keys.
pub record IsConfig (values : List ℕ → Option (List ℕ)) (x y slow : List ℕ) : Type 0 where
  pub has_x : values x_chips ≡ some x
  pub has_y : values y_chips ≡ some y
  pub has_slow : values slow_down_timer ≡ some slow

bytes-lt : (x y : ℕ) → x < 256 → y < 256 → x * y < 2 ^ 30
bytes-lt x y h h' = grind arith

module _ (parse : List ℕ → Option (List ℕ → Option (List ℕ))) (atoi : List ℕ → ℕ)
    (argv : List (List ℕ)) where
  read_config-IsConfig :
      (values : List ℕ → Option (List ℕ)) (x y slow : List ℕ)
      → parse (config_file argv) ≡ some values
      → IsConfig values x y slow
      → read_config parse atoi argv ≡ ok (atoi slow, some (atoi x, atoi y))
  unfolding read_config read_values
  read_config-IsConfig values x y slow parsed c =
      rw (parsed, read_config)
        (ap (λ o. read_values atoi o (values y_chips) (values slow_down_timer)) c.has_x
          ∙ ap (λ o. read_values atoi (some x) o (values slow_down_timer)) c.has_y
          ∙ ap (λ o. read_values atoi (some x) (some y) o) c.has_slow)

  read_config_failed : parse (config_file argv) ≡ none → read_config parse atoi argv ≡ ok (1, none)
  unfolding read_config
  read_config_failed failed = rw (failed, read_config) refl

  module _ (mem : Memory) (ends : Table (ℕ × ℕ)) (ids : Table ℕ) (s : Dispatcher)
      (zeroed : IsZeroed mem) (off : s.initialised ≡ false) (some_fresh : 0 < s.sdp.fresh) where
    -- Where the file that the arguments name, or ./default.cfg, can be read and has the three
    -- keys, with sides of the board whose product is below 2^30, and where `malloc`, `mkdtemp` and
    -- each `socketpair` and `fork` for a core of the board succeed, on fresh memory with empty
    -- queues, a heap whose next address is not 0 and a dispatcher that is not initialised, the
    -- emulator comes to its loop running, with a board of the size in the file and the process of
    -- every core started, and keeps the slow-down factor in the file.
    pub emulator_main-IsRunning :
        (values : List ℕ → Option (List ℕ)) (x y slow : List ℕ)
        → parse (config_file argv) ≡ some values
        → IsConfig values x y slow
        → atoi x * atoi y < 2 ^ 30
        → IsServed (record { chips_x = atoi x; chips_y = atoi y }) ends ids mem.calls
        → (s' : Dispatcher) × (emulator_main parse atoi argv mem s ≡ ok (atoi slow, s'))
          × IsBoard (atoi x) (atoi y) ends ids s'
    unfolding emulator_main
    emulator_main-IsRunning values x y slow parsed c few served =
        let (s', run, v) =
          boot-IsRunning mem (atoi x) (atoi y) ends ids s few served zeroed off some_fresh in
        (s', rw (read_config-IsConfig values x y slow parsed c) (rw run refl), v)

    -- Where there is no configuration, a P2PC message sets up the board of its size.
    pub emulator_main-process_p2pc :
        (m : Msg)
        → parse (config_file argv) ≡ none
        → IsServed
            (record {
              chips_x = low_bits (ntohl m.arg2) 8;
              chips_y = low_bits (shr (ntohl m.arg2) 8) 8;
            })
            ends
            ids
            mem.calls
        → (s₁ s₂ : Dispatcher) × (emulator_main parse atoi argv mem s ≡ ok (1, s₁))
          × (s₁.initialised ≡ false)
          × (process_p2pc mem m s₁ ≡ ok s₂)
          × IsBoard (low_bits (ntohl m.arg2) 8) (low_bits (shr (ntohl m.arg2) 8) 8) ends ids s₂
    unfolding emulator_main process_p2pc boot
    emulator_main-process_p2pc m failed served =
        let s₁ : Dispatcher = record s {
          tags = record s.tags { table = iptag_init s.tags.table };
        } in
        let x = low_bits (ntohl m.arg2) 8 in
        let y = low_bits (shr (ntohl m.arg2) 8) 8 in
        let few : x * y < 2 ^ 30 = bytes-lt x y (omega arith) (omega arith) in
        let (s₂, run, v) = cmd_p2pc-IsBoard mem x y ends ids s₁ few served zeroed off some_fresh in
        (
          s₁,
          s₂,
          rw (read_config_failed failed) refl,
          off,
          if_false s.initialised (ok s₁) _ off ∙ run,
          v,
        )
