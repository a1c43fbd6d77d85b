-- ===== src/Board.antt =====
-- The tables that `cmd_p2pc` (spin_emu_dispatcher.c) fills before it starts the cores: the routing
-- entries and the link table. Memory from `malloc` holds any values: the tables it starts from are
-- arguments.
pub mod Setup
use spi_nnaker_emulator.Base.{ℕ, zero, suc, ◌+◌, Bool, Option, none, some, Table, update, count_up}
use spi_nnaker_emulator.Base.Int.{ℤ}
use spi_nnaker_emulator.Grid.{Dims, num_chips, num_links, channel_target, ◌>>=◌}
use spi_nnaker_emulator.Wire.{Route, num_routes}
use spi_nnaker_emulator.Router.{Net}

abbrev pub empty_route : Route
empty_route = record { key = 0xFFFFFFFF; mask = 0; route = 0 }

-- The loops that initialise the routing tables.
unfoldable pub setup_routes : Dims → Table Route → Table Route
unfolding count_up
setup_routes d routes =
    count_up (num_chips d) 0
      (λ perchip t. count_up num_routes 0 (λ perroute t'. update t' perchip perroute empty_route) t)
      routes

-- One store of the loops that initialise the link table; `none` is a failed assertion.
unfoldable pub setup_link : Dims → ℕ → ℕ → Option (Table ℤ) → Option (Table ℤ)
unfolding channel_target
setup_link d perchip perlink o =
    o >>= λ t. channel_target d perchip perlink >>= λ v. some (update t perchip perlink v)

unfoldable pub setup_links : Dims → Table ℤ → Option (Table ℤ)
unfolding count_up setup_link
setup_links d targets =
    count_up (num_chips d) 0
      (λ perchip o. count_up num_links 0 (λ perlink. setup_link d perchip perlink) o) (some targets)

-- The tables of an initialised board.
unfoldable pub setup_net : Dims → Table Route → Table ℤ → Option Net
unfolding setup_routes setup_links
setup_net d routes targets = setup_links d targets >>= λ t.
    some (record { dims = d; channel_targets = t; routes = setup_routes d routes })
