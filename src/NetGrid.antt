-- ===== src/NetGrid.antt =====
-- `CNetGrid` of net/net_grid.h: how many requests are let through in a sliding window of time,
-- which is cut into cells. A request is refused when the window is full.
use common_cc.Prelude.{
  ℕ, zero, suc, ◌+◌, ◌-◌, ◌*◌, ◌/◌, ◌%◌, ◌^◌, Bool, List, replicate, set, get_or, ltb, leb, ◌==◌,
  if◌then◌else◌,
}
use common_cc.Prelude.Int.{ℤ, pos, negsuc, ◌+ℤ◌, ◌*ℤ◌, sub_ℕ}
use common_cc.Prelude.Word.{u32, sub32}
pub mod Window
mod Examples

-- `struct timeval`.
pub record Timeval : Type 0 where
  pub tv_sec : ℕ
  pub tv_usec : ℕ

-- `CNetGrid`, but for the field that only `check_load` uses while it runs.
pub record NetGrid : Type 0 where
  pub grid_count : ℕ
  pub grid_distant : ℕ
  pub max_req_water_mark : ℕ
  pub grid_array : List ℕ
  pub req_water_mark : ℕ
  pub curr_grid : ℕ
  pub virtual_last_grid : ℕ
  pub start_time : Timeval

-- `LoadRet`.
pub data LoadRet : Type 0 where
  lr_normal : LoadRet
  lr_full : LoadRet

-- The constructor with arguments, and `InitGrid`.
unfoldable pub init_grid : Timeval → ℕ → ℕ → ℕ → NetGrid
init_grid now grid_count grid_distant max_req_water_mark = record {
  grid_count = grid_count;
  grid_distant = grid_distant;
  max_req_water_mark = max_req_water_mark;
  grid_array = replicate grid_count 0;
  req_water_mark = 0;
  curr_grid = 0;
  virtual_last_grid = 0;
  start_time = now;
}

-- `set_full`.
unfoldable pub set_full : Timeval → NetGrid → NetGrid
set_full cur_time g = record g {
  start_time = cur_time;
  curr_grid = 0;
  virtual_last_grid = 0;
  grid_array = set (replicate g.grid_count 0) (g.grid_count - 1) g.max_req_water_mark;
  req_water_mark = g.max_req_water_mark;
}

-- The microseconds since the start, which the code holds in a `double`.
unfoldable pub time_used : Timeval → Timeval → ℤ
time_used now start =
    sub_ℕ now.tv_sec start.tv_sec *ℤ pos 1000000 +ℤ sub_ℕ now.tv_usec start.tv_usec

-- `check_load` where the clock was set back.
unfoldable pub reset : Timeval → NetGrid → NetGrid
reset now g = record g {
  start_time = now;
  curr_grid = 0;
  req_water_mark = 0;
  grid_array = replicate g.grid_count 0;
  virtual_last_grid = 0;
}

-- The loop of `check_load`: the number of cells still to clear, and the index of the next one.
unfoldable pub clear_cells : ℕ → ℕ → NetGrid → NetGrid
clear_cells zero i g = g
clear_cells (suc n) i g =
    let cell = sub32 g.curr_grid i + g.grid_count in
    let at = u32 cell % g.grid_count in
    clear_cells n (suc i) (record g {
      req_water_mark = sub32 g.req_water_mark (get_or g.grid_array at 0);
      grid_array = set g.grid_array at 0;
    })

-- The end of `check_load`: the request is counted, and taken back where that fills the window.
unfoldable pub take_request : NetGrid → LoadRet × NetGrid
take_request g =
    let cell = get_or g.grid_array g.curr_grid 0 in
    let taken = record g {
      grid_array = set g.grid_array g.curr_grid (u32 (cell + 1));
      req_water_mark = u32 (g.req_water_mark + 1);
    } in
    if leb g.max_req_water_mark taken.req_water_mark
    then (
      lr_full,
      record taken {
        grid_array =
            set taken.grid_array g.curr_grid (sub32 (get_or taken.grid_array g.curr_grid 0) 1);
        req_water_mark = sub32 taken.req_water_mark 1;
      },
    )
    else (lr_normal, taken)

-- `check_load` in the cell that the time has reached.
unfoldable pub enter_cell : ℕ → NetGrid → LoadRet × NetGrid
enter_cell virtual_curr_grid old =
    let g = record old { curr_grid = virtual_curr_grid % old.grid_count } in
    let spand = sub32 virtual_curr_grid g.virtual_last_grid in
    let moved = record g { virtual_last_grid = virtual_curr_grid } in
    let cleared = clear_cells (if ltb g.grid_count spand then g.grid_count else spand) 0 moved in
    if virtual_curr_grid == g.virtual_last_grid
    then take_request g
    else if leb cleared.max_req_water_mark cleared.req_water_mark
    then (lr_full, cleared)
    else take_request cleared

-- `check_load` at a number of microseconds since the start. The number of milliseconds becomes an
-- `unsigned`.
unfoldable pub check_at : ℤ → Timeval → NetGrid → LoadRet × NetGrid
check_at (negsuc n) now g = (lr_normal, reset now g)
check_at (pos n) now g = enter_cell (u32 (n / 1000) / g.grid_distant) g

-- `check_load`.
unfoldable pub check_load : Timeval → NetGrid → LoadRet × NetGrid
check_load now g = check_at (time_used now g.start_time) now g

-- `fetch_load`.
unfoldable pub fetch_load : NetGrid → ℕ × ℕ
fetch_load g = (u32 (g.grid_distant * g.grid_count), g.req_water_mark)
