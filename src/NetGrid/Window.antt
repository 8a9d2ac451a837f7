-- ===== src/NetGrid/Window.antt =====
-- The count of the window: the mark is the sum of the cells, and stays below the limit.
use common_cc.Prelude.{
  ℕ, zero, suc, ◌+◌, ◌-◌, ◌%◌, ◌/◌, ◌^◌, ◌≤◌, ◌<◌, ◌≡◌, ◌∙◌, refl, List, [], ◌∷◌, length,
  length-set, length-replicate, replicate, set, get_or, ltb, leb, ◌==◌, if◌then◌else◌, leb→le,
  arith, Bool-cases, inl, inr,
}
use common_cc.Prelude.Int.{ℤ, pos, negsuc}
use common_cc.Prelude.Word.{u32, sub32}
use common_cc.NetGrid.{
  Timeval, NetGrid, LoadRet, lr_normal, lr_full, init_grid, set_full, reset, clear_cells,
  take_request, enter_cell, check_at, check_load, time_used,
}

abbrev pub sum : List ℕ → ℕ
sum [] = 0
sum (x ∷ xs) = x + sum xs

sum-set : (xs : List ℕ) (i v : ℕ) → i < length xs → sum (set xs i v) + get_or xs i 0 ≡ sum xs + v
sum-set [] i v h = absurd (omega arith)
sum-set (x ∷ xs) zero v h = omega arith
sum-set (x ∷ xs) (suc i) v h = omega (arith, sum-set xs i v (omega arith))

get_or-set : (xs : List ℕ) (i v : ℕ) → i < length xs → get_or (set xs i v) i 0 ≡ v
get_or-set [] i v h = absurd (omega arith)
get_or-set (x ∷ xs) zero v h = refl
get_or-set (x ∷ xs) (suc i) v h = get_or-set xs i v (omega arith)

sum-replicate : (n : ℕ) → sum (replicate n 0) ≡ 0
sum-replicate zero = refl
sum-replicate (suc n) = omega (arith, sum-replicate n)

get_or-le : (xs : List ℕ) (i : ℕ) → get_or xs i 0 ≤ sum xs
get_or-le [] i = omega arith
get_or-le (x ∷ xs) zero = omega arith
get_or-le (x ∷ xs) (suc i) = omega (arith, get_or-le xs i)

-- The window has cells that last some time, the mark is the sum of them, and is not above the limit.
pub record IsGrid (g : NetGrid) : Type 0 where
  pub some_cells : 0 < g.grid_count
  pub cell_time : 0 < g.grid_distant
  pub cells : length g.grid_array ≡ g.grid_count
  pub mark_is_sum : sum g.grid_array ≡ g.req_water_mark
  pub mark_le : g.req_water_mark ≤ g.max_req_water_mark
  pub max_fits : g.max_req_water_mark + 1 < 2 ^ 32

-- A new window is right, if it has cells that last some time and a limit below 2 ^ 32 - 1.
pub init_grid-IsGrid :
    (now : Timeval) (count distant most : ℕ)
    → 0 < count
    → 0 < distant
    → most + 1 < 2 ^ 32
    → IsGrid (init_grid now count distant most)
unfolding init_grid
init_grid-IsGrid now count distant most h j k = record {
  some_cells = h;
  cell_time = j;
  cells = length-replicate count 0;
  mark_is_sum = sum-replicate count;
  mark_le = omega arith;
  max_fits = k;
}

module _ (g : NetGrid) (w : IsGrid g) where
  -- `set_full` leaves a window right, and full up to the limit.
  set_full-IsGrid : (now : Timeval) → IsGrid (set_full now g)
  unfolding set_full
  set_full-IsGrid now =
      let empty : List ℕ = replicate g.grid_count 0 in
      let size : length empty ≡ g.grid_count = length-replicate g.grid_count 0 in
      let last : ℕ = g.grid_count - 1 in
      record {
        some_cells = w.some_cells;
        cell_time = w.cell_time;
        cells = length-set empty last g.max_req_water_mark ∙ size;
        mark_is_sum = omega (
          arith,
          w.some_cells,
          size,
          sum-set empty last g.max_req_water_mark (omega (arith, w.some_cells)),
          sum-replicate g.grid_count,
          get_or-le empty last,
        );
        mark_le = omega arith;
        max_fits = w.max_fits;
      }

  reset-IsGrid : (now : Timeval) → IsGrid (reset now g)
  unfolding reset
  reset-IsGrid now = record {
    some_cells = w.some_cells;
    cell_time = w.cell_time;
    cells = length-replicate g.grid_count 0;
    mark_is_sum = sum-replicate g.grid_count;
    mark_le = omega arith;
    max_fits = w.max_fits;
  }

clear_cells-IsGrid : (n i : ℕ) (g : NetGrid) → IsGrid g → IsGrid (clear_cells n i g)
unfolding clear_cells
clear_cells-IsGrid zero i g w = w
clear_cells-IsGrid (suc n) i g w =
    let at : ℕ = u32 (sub32 g.curr_grid i + g.grid_count) % g.grid_count in
    let inside : at < length g.grid_array = omega (arith, w.some_cells, w.cells) in
    let below = get_or-le g.grid_array at in
    clear_cells-IsGrid n (suc i) _ (record {
      some_cells = w.some_cells;
      cell_time = w.cell_time;
      cells = length-set g.grid_array at 0 ∙ w.cells;
      mark_is_sum =
          omega (arith, sum-set g.grid_array at 0 inside, w.mark_is_sum, w.mark_le, w.max_fits);
      mark_le = omega (arith, w.mark_is_sum, w.mark_le, w.max_fits);
      max_fits = w.max_fits;
    })

-- What an answer tells of the mark: below the limit, or at most one request short of it.
abbrev pub Tells : LoadRet → NetGrid → Type 0
Tells lr_normal g = g.req_water_mark < g.max_req_water_mark
Tells lr_full g = g.max_req_water_mark ≤ g.req_water_mark + 1

-- What `check_load` returns is right.
abbrev Right : LoadRet × NetGrid → Type 0
Right r = IsGrid r.1 × Tells r.0 r.1

take_request_lem : (g : NetGrid) → IsGrid g → g.curr_grid < g.grid_count → Right (take_request g)
unfolding take_request
take_request_lem g w h =
    let cell : ℕ = get_or g.grid_array g.curr_grid 0 in
    let more : List ℕ = set g.grid_array g.curr_grid (u32 (cell + 1)) in
    let inside : g.curr_grid < length g.grid_array = omega (arith, w.cells) in
    let size : length more ≡ g.grid_count =
      length-set g.grid_array g.curr_grid (u32 (cell + 1)) ∙ w.cells in
    let below : cell ≤ sum g.grid_array = get_or-le g.grid_array g.curr_grid in
    let here : get_or more g.curr_grid 0 ≡ u32 (cell + 1) =
      get_or-set g.grid_array g.curr_grid (u32 (cell + 1)) inside in
    let added = sum-set g.grid_array g.curr_grid (u32 (cell + 1)) inside in
    let less : ℕ = sub32 (get_or more g.curr_grid 0) 1 in
    let removed = sum-set more g.curr_grid less (omega (arith, size)) in
    elim (Bool-cases (leb g.max_req_water_mark (u32 (g.req_water_mark + 1)))) [
      | inl e ↦
          let full : g.max_req_water_mark ≤ u32 (g.req_water_mark + 1) = leb→le _ _ e in
          rw e (
            record {
              some_cells = w.some_cells;
              cell_time = w.cell_time;
              cells = length-set more g.curr_grid less ∙ size;
              mark_is_sum = omega (arith, w.mark_is_sum, w.mark_le, w.max_fits);
              mark_le = omega (arith, w.mark_le, w.max_fits);
              max_fits = w.max_fits;
            },
            omega (arith, w.mark_le, w.max_fits),
          )
      | inr e ↦
          let room : u32 (g.req_water_mark + 1) < g.max_req_water_mark = ground (arith, e) in
          rw e (
            record {
              some_cells = w.some_cells;
              cell_time = w.cell_time;
              cells = size;
              mark_is_sum = omega (arith, w.mark_is_sum, w.mark_le, w.max_fits);
              mark_le = omega arith;
              max_fits = w.max_fits;
            },
            room,
          )
    ]

clear_cells-same :
    (n i : ℕ) (g : NetGrid)
    → ((clear_cells n i g).curr_grid ≡ g.curr_grid)
      × ((clear_cells n i g).grid_count ≡ g.grid_count)
unfolding clear_cells
clear_cells-same zero i g = (refl, refl)
clear_cells-same (suc n) i g = clear_cells-same n (suc i) _

enter_cell_lem : (v : ℕ) (g : NetGrid) → IsGrid g → Right (enter_cell v g)
unfolding enter_cell
enter_cell_lem v old w =
    let g : NetGrid = record old { curr_grid = v % old.grid_count } in
    let moved : NetGrid = record g { virtual_last_grid = v } in
    let spand : ℕ = sub32 v g.virtual_last_grid in
    let most : ℕ = if ltb g.grid_count spand then g.grid_count else spand in
    let cleared : NetGrid = clear_cells most 0 moved in
    let in_cell : g.curr_grid < g.grid_count = omega (arith, w.some_cells) in
    let there : IsGrid g = record {
      some_cells = w.some_cells;
      cell_time = w.cell_time;
      cells = w.cells;
      mark_is_sum = w.mark_is_sum;
      mark_le = w.mark_le;
      max_fits = w.max_fits;
    } in
    let clean : IsGrid cleared = clear_cells-IsGrid most 0 moved (record {
      some_cells = w.some_cells;
      cell_time = w.cell_time;
      cells = w.cells;
      mark_is_sum = w.mark_is_sum;
      mark_le = w.mark_le;
      max_fits = w.max_fits;
    }) in
    let same = clear_cells-same most 0 moved in
    elim (Bool-cases (v == g.virtual_last_grid)) [
      | inl e ↦ rw e (take_request_lem g there in_cell)
      | inr e ↦ elim (Bool-cases (leb cleared.max_req_water_mark cleared.req_water_mark)) [
        | inl f ↦
            let full : cleared.max_req_water_mark ≤ cleared.req_water_mark = leb→le _ _ f in
            rw (e, f) (clean, omega arith)
        | inr f ↦ rw (e, f) (take_request_lem cleared clean (omega (arith, same.0, same.1)))
      ]
    ]

by_time :
    (t : ℤ) (now : Timeval) (g : NetGrid)
    → IsGrid g
    → 0 < g.max_req_water_mark
    → Right (check_at t now g)
unfolding check_at
by_time (negsuc n) now g w h = (reset-IsGrid g w now, unfold reset in h)
by_time (pos n) now g w h = enter_cell_lem (u32 (n / 1000) / g.grid_distant) g w

-- `check_load` keeps the window right, whatever the time: the mark stays the sum of the cells and
-- at most the limit; a request that is let through leaves it below the limit, which is not 0, and
-- one is refused only where the mark is at most one short of the limit.
pub check_load_lem :
    (now : Timeval) (g : NetGrid)
    → IsGrid g
    → 0 < g.max_req_water_mark
    → IsGrid (check_load now g).1 × Tells (check_load now g).0 (check_load now g).1
unfolding check_load
check_load_lem now g w h = by_time (time_used now g.start_time) now g w h
