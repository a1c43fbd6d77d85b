-- ===== src/Examples/Boards.antt =====
-- Chip numbers, links and the set-up of small boards.
use spi_nnaker_emulator.Base.{◌≡◌, some}
use spi_nnaker_emulator.Base.Int.{pos}
use spi_nnaker_emulator.Grid.{Dims}
use spi_nnaker_emulator.Router.{Net}
use spi_nnaker_emulator.Router.Forward.{HasLinks}
use spi_nnaker_emulator.Board.{empty_route, setup_net}
use spi_nnaker_emulator.Board.Setup.{DropsAll, setup_net_lem}

-- Three columns of two chips.
abbrev six : Dims
six = record { chips_x = 3; chips_y = 2 }

setup_net_lem_example :
    (net : Net) × (setup_net six (λ c k. empty_route) (λ c j. pos 77) ≡ some net)
    × (net.dims ≡ six)
    × HasLinks net
    × DropsAll net
setup_net_lem_example = setup_net_lem six (λ c k. empty_route) (λ c j. pos 77)
