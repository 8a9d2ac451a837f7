-- ===== src/Session.antt =====
-- `CSessionMgr` of net/net_session.h and net/net_session.cc: sessions that wait for an answer, by
-- their sequence numbers, with a limit on the time that each may wait. The sessions are objects
-- behind pointers, which the manager deletes.
mod Table
mod Expire
mod Clock
mod Examples
use common_cc.Prelude.{
  ℕ, Bool, true, false, Option, none, some, List, [], ◌∷◌, ◌==◌, if◌then◌else◌, ◌>>=◌,
}
use common_cc.Prelude.Int.{ℤ, pos, negsuc, ◌+ℤ◌, ◌*ℤ◌, sub_ℕ, ltb_ℤ, quot}

-- `struct timeval`.
pub record Timeval : Type 0 where
  pub tv_sec : ℕ
  pub tv_usec : ℕ

-- `CBaseSession`.
pub record Session : Type 0 where
  pub create_time : Timeval
  pub last_time : Timeval
  pub gap : ℕ
  pub msg_seq : ℕ
  pub is_expire_delete : Bool

-- The objects by their addresses; `none` where no object lives.
abbrev pub Heap : Type 0
Heap = ℕ → Option Session

unfoldable pub update : Heap → ℕ → Option Session → Heap
update h p o q = if q == p then o else h q

-- The objects, and `_mp_timer_info` as its entries in the order of iteration.
pub record Manager : Type 0 where
  pub heap : Heap
  pub mp_timer_info : List (ℕ × ℕ)

-- `_mp_timer_info.find`.
unfoldable pub find : ℕ → List (ℕ × ℕ) → Option ℕ
find k [] = none
find k ((j, p) ∷ t) = if j == k then some p else find k t

-- `_mp_timer_info.erase` at the entry of a key.
unfoldable pub erase : ℕ → List (ℕ × ℕ) → List (ℕ × ℕ)
erase k [] = []
erase k ((j, p) ∷ t) = if j == k then t else (j, p) ∷ erase k t

-- `TIME_DIFF_MS`.
pub time_diff_ms : Timeval → Timeval → ℤ
unfolding quot ◌+ℤ◌ ◌*ℤ◌
time_diff_ms a b = sub_ℕ a.tv_sec b.tv_sec *ℤ pos 1000 +ℤ quot (sub_ℕ a.tv_usec b.tv_usec) 1000

-- What `Set` writes into a session.
abbrev pub stamped : Timeval → ℕ → ℕ → Session → Session
stamped now msg_seq gap_ms s = record s { msg_seq = msg_seq; last_time = now; gap = gap_ms }

-- `Set`: the object is written also where the key is taken. `none` is a dangling pointer.
pub set : Timeval → Manager → ℕ → ℕ → ℕ → Option (ℤ × Manager)
set now m msg_seq timer_info gap_ms = do
  s ← m.heap timer_info
  let written : Heap = update m.heap timer_info (some (stamped now msg_seq gap_ms s))
  let taken : ℤ × Manager = (negsuc 0, record m { heap = written })
  let added : ℤ × Manager =
      (pos 0, record { heap = written; mp_timer_info = (msg_seq, timer_info) ∷ m.mp_timer_info })
  some (elim (find msg_seq m.mp_timer_info) [ none ↦ added | some p ↦ taken ])

-- `Get`: the session leaves the table. The pointer is `none` for `NULL`.
pub get : Manager → ℕ → ℤ × Option ℕ × Manager
get m msg_seq = elim (find msg_seq m.mp_timer_info) [
  | none ↦ (negsuc 0, none, m)
  | some p ↦ (pos 0, some p, record m { mp_timer_info = erase msg_seq m.mp_timer_info })
]

-- `Exist`: 0 for a key that is there.
pub exist : Manager → ℕ → ℕ
exist m msg_seq = elim (find msg_seq m.mp_timer_info) [ none ↦ 1 | some p ↦ 0 ]

-- The test of `CheckExpire`.
pub is_expired : Timeval → Session → Bool
is_expired cur_time s = ltb_ℤ (pos s.gap) (time_diff_ms cur_time s.last_time)

-- What a session's class does in `OnExpire` is a parameter: its effect on the object. The object
-- after the call: deleted, if it says so.
pub expire : (Session → Session) → Session → Option Session
expire on_expire s = let s' = on_expire s in if s'.is_expire_delete then none else some s'

module _ (on_expire : Session → Session) (cur_time : Timeval) where
  -- `CheckExpire` over the entries left: the objects, the entries that stay, and the pointers whose
  -- `OnExpire` was called, in order. `none` is the use of a deleted object.
  pub check_from : Heap → List (ℕ × ℕ) → Option (Heap × List (ℕ × ℕ) × List ℕ)
  unfolding expire
  check_from h [] = some (h, [], [])
  check_from h ((k, p) ∷ t) = do
    s ← h p
    let over = is_expired cur_time s
    (h', kept, called) ← check_from (if over then update h p (expire on_expire s) else h) t
    some (if over then (h', kept, p ∷ called) else (h', (k, p) ∷ kept, called))

  pub check_expire : Manager → Option (Manager × List ℕ)
  unfolding check_from
  check_expire m = do
    (h, kept, called) ← check_from m.heap m.mp_timer_info
    some (record { heap = h; mp_timer_info = kept }, called)
