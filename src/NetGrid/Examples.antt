-- ===== src/NetGrid/Examples.antt =====
-- Runs of the window, and its theorems at concrete windows.
use common_cc.Prelude.{◌≡◌, refl, arith}
use common_cc.Prelude.Int.{◌+ℤ◌, ◌*ℤ◌}
use common_cc.NetGrid.{
  Timeval, NetGrid, lr_full, init_grid, check_load, check_at, enter_cell, take_request, clear_cells,
  time_used,
}
use common_cc.NetGrid.Window.{IsGrid, Tells, init_grid-IsGrid, check_load_lem}

abbrev start : Timeval
start = record { tv_sec = 100; tv_usec = 0 }

abbrev soon : Timeval
soon = record { tv_sec = 100; tv_usec = 250000 }

abbrev window : NetGrid
unfolding init_grid
window = init_grid start 3 100 3

-- The limit is 3, and the third request is refused.
third_refused : (check_load soon (check_load soon (check_load soon window).1).1).0 ≡ lr_full
unfolding check_load check_at enter_cell take_request clear_cells time_used init_grid ◌+ℤ◌ ◌*ℤ◌
third_refused = refl

window-IsGrid : IsGrid window
unfolding init_grid
window-IsGrid = init_grid-IsGrid start 3 100 3 (omega arith) (omega arith) (omega arith)

check_load_lem_example :
    IsGrid (check_load soon window).1 × Tells (check_load soon window).0 (check_load soon window).1
unfolding init_grid
check_load_lem_example = check_load_lem soon window window-IsGrid (omega arith)
