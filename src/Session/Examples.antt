-- ===== src/Session/Examples.antt =====
-- Runs of the session manager, and its theorems at a concrete table.
use common_cc.Prelude.{ℕ, ◌≡◌, refl, none, some, [], ◌∷◌, ◌==◌, if◌then◌else◌, arith, true}
use common_cc.Prelude.Int.{pos}
use common_cc.Session.{
  Timeval, Session, Heap, Manager, find, set, get, exist, stamped, is_expired, check_expire,
  time_diff_ms,
}
use common_cc.Session.Table.{Unlisted, Owns, set_new, get_lem}
use common_cc.Session.Expire.{kept, called, Settled, check_expire_lem, check_expire_shared}

abbrev at_ms : ℕ → Timeval
at_ms s = record { tv_sec = s; tv_usec = 500000 }

abbrev session : ℕ → ℕ → Session
session seq at = record {
  create_time = at_ms at;
  last_time = at_ms at;
  gap = 1000;
  msg_seq = seq;
  is_expire_delete = true;
}

abbrev nowhere : Heap
nowhere p = none

-- Two sessions in the table, and one that is not.
abbrev objects : Heap
objects p =
    if p == 70
    then some (session 7 10)
    else if p == 80
    then some (session 8 15)
    else if p == 90
    then some (session 0 1)
    else none

abbrev manager : Manager
manager = record { heap = objects; mp_timer_info = (7, 70) ∷ (8, 80) ∷ [] }

manager-Owns : Owns objects ((7, 70) ∷ (8, 80) ∷ [])
manager-Owns =
    ((session 7 10, refl), (omega arith, tt), (omega arith, tt), ((session 8 15, refl), tt, tt, tt))

abbrev same : Session → Session
same s = s

-- At 16.5 s the first session is over, and the second, with just one second passed, is not.
check-manager :
    (called same (at_ms 16) objects manager.mp_timer_info ≡ 70 ∷ [])
    × (kept same (at_ms 16) objects manager.mp_timer_info ≡ (8, 80) ∷ [])
unfolding is_expired time_diff_ms
check-manager = (refl, refl)

set_new_example :
    (m' : Manager) × (set (at_ms 20) manager 9 90 500 ≡ some (pos 0, m'))
    × Owns m'.heap m'.mp_timer_info
    × (get m' 9 ≡ (pos 0, some 90, record m' { mp_timer_info = manager.mp_timer_info }))
    × (m'.heap 90 ≡ some (stamped (at_ms 20) 9 500 (session 0 1)))
unfolding find
set_new_example =
    set_new (at_ms 20) manager 9 90 500 (session 0 1) refl manager-Owns
      (omega arith, (omega arith, tt)) refl

get_lem_example :
    (m' : Manager) × (get manager 8 ≡ (pos 0, some 80, m'))
    × (exist manager 8 ≡ 0)
    × (exist m' 8 ≡ 1)
    × Unlisted 80 m'.mp_timer_info
    × Owns m'.heap m'.mp_timer_info
    × (m'.heap ≡ manager.heap)
    × ((j : ℕ) → find j m'.mp_timer_info ≡ (if j == 8 then none else find j manager.mp_timer_info))
unfolding find
get_lem_example = get_lem manager 8 80 manager-Owns refl

check_expire_lem_example :
    (m' : Manager) × (check_expire same (at_ms 16) manager
      ≡ some (m', called same (at_ms 16) objects manager.mp_timer_info))
    × (m'.mp_timer_info ≡ kept same (at_ms 16) objects manager.mp_timer_info)
    × Owns m'.heap m'.mp_timer_info
    × Settled same (at_ms 16) objects m'.heap manager.mp_timer_info
check_expire_lem_example = check_expire_lem same (at_ms 16) manager manager-Owns

check_expire_shared_example :
    check_expire same
      (at_ms 16)
      (record { heap = objects; mp_timer_info = (8, 80) ∷ (1, 70) ∷ (9, 90) ∷ (2, 70) ∷ [] })
    ≡ none
check_expire_shared_example =
    check_expire_shared same (at_ms 16) objects ((8, 80) ∷ []) ((9, 90) ∷ []) [] 1 2 70
      (session 7 10) refl refl refl
