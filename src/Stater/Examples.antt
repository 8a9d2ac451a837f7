-- ===== src/Stater/Examples.antt =====
-- Runs of the statistics, and their theorems at concrete calls.
use common_cc.Prelude.{◌≡◌, refl, List, [], ◌∷◌, codes, arith}
use common_cc.Stater.{Timeval, Stater, new_stater, new_item, cost, bump, add_item}
use common_cc.Stater.Counts.{Call, Sums, passed, add_items, add_items_lem}

abbrev start : Timeval
start = record { tv_sec = 100; tv_usec = 900000 }

abbrev stop : Timeval
stop = record { tv_sec = 101; tv_usec = 10 }

abbrev calls : List Call
calls =
    record { st = start; ed = stop; count = 2 }
    ∷ record { st = start; ed = record { tv_sec = 100; tv_usec = 900100 }; count = 5 }
    ∷ []

abbrev one_key : Stater
one_key = record new_stater { stat = (codes "get", new_item start) ∷ [] }

cost-start : cost start stop ≡ 100010
unfolding cost
cost-start = refl

add_items-calls : (add_items new_stater (new_item start) calls).threshold3_num ≡ 2
unfolding add_items add_item bump cost
add_items-calls = refl

add_items_lem_example :
    Sums passed new_stater (new_item start) (add_items new_stater (new_item start) calls) calls
add_items_lem_example =
    add_items_lem new_stater (new_item start) calls
      (record {
        total_num_fits = omega arith;
        threshold1_fits = omega arith;
        threshold2_fits = omega arith;
        threshold3_fits = omega arith;
        total_cost_fits = omega arith;
      })
      ((omega arith, omega arith, omega arith), ((omega arith, omega arith, omega arith), tt))
