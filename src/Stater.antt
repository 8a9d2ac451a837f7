-- ===== src/Stater.antt =====
-- `CStater` of utils/stater.h and utils/stater.cpp: how often and how long the operations of a
-- server ran, by key. The mutex is left out: each operation here runs alone. A `new` that fails is
-- left out as well.
use common_cc.Prelude.{
  ℕ, ◌+◌, ◌-◌, ◌*◌, ◌/◌, ◌^◌, Bool, true, false, Option, none, some, List, [], ◌∷◌, Bytes, ◌==◌,
  ltb, leb, if◌then◌else◌,
}
use common_cc.Prelude.Word.{u32, u64}
pub mod Counts
pub mod Keys
mod Examples

-- `struct timeval`.
pub record Timeval : Type 0 where
  pub tv_sec : ℕ
  pub tv_usec : ℕ

-- `SStaterItem`.
pub record StaterItem : Type 0 where
  pub total_cost_usec : ℕ
  pub max_cost_usec : ℕ
  pub min_cost_usec : ℕ
  pub avg_cost_usec : ℕ
  pub total_num : ℕ
  pub threshold1_num : ℕ
  pub threshold2_num : ℕ
  pub threshold3_num : ℕ
  pub begin_time : Timeval

-- `CStater`, with its map as its entries, each key once.
pub record Stater : Type 0 where
  pub stat : List (Bytes × StaterItem)
  pub threshold1 : ℕ
  pub threshold2 : ℕ
  pub threshold3 : ℕ

-- The constructor of `SStaterItem`.
abbrev pub new_item : Timeval → StaterItem
new_item now = record {
  total_cost_usec = 0;
  max_cost_usec = 0;
  min_cost_usec = 3600000000;
  avg_cost_usec = 0;
  total_num = 0;
  threshold1_num = 0;
  threshold2_num = 0;
  threshold3_num = 0;
  begin_time = now;
}

-- The constructor of `CStater`, and `Init`.
abbrev pub new_stater : Stater
new_stater = record { stat = []; threshold1 = 10000; threshold2 = 50000; threshold3 = 80000 }

abbrev pub init : ℕ → ℕ → ℕ → Stater → Stater
init t1 t2 t3 s = record s { threshold1 = t1; threshold2 = t2; threshold3 = t3 }

-- The order of `std::string`, as far as the map needs it: two keys are the same.
unfoldable pub same_key : Bytes → Bytes → Bool
same_key [] [] = true
same_key [] (d ∷ t) = false
same_key (c ∷ s) [] = false
same_key (c ∷ s) (d ∷ t) = if c == d then same_key s t else false

-- `_stat.find`.
unfoldable pub find : Bytes → List (Bytes × StaterItem) → Option StaterItem
find k [] = none
find k ((j, item) ∷ t) = if same_key j k then some item else find k t

-- What is behind a key becomes another item; a key that is not there is added.
unfoldable pub put : Bytes → StaterItem → List (Bytes × StaterItem) → List (Bytes × StaterItem)
put k new [] = (k, new) ∷ []
put k new ((j, item) ∷ t) = if same_key j k then (j, new) ∷ t else (j, item) ∷ put k new t

-- `_stat.erase` at the entry of a key.
unfoldable pub erase : Bytes → List (Bytes × StaterItem) → List (Bytes × StaterItem)
erase k [] = []
erase k ((j, item) ∷ t) = if same_key j k then t else (j, item) ∷ erase k t

abbrev pub item_or : Option StaterItem → StaterItem → StaterItem
item_or none new = new
item_or (some item) new = item

-- The cost of `AddStat`: a difference of signed numbers that becomes an `uint64_t`.
unfoldable pub cost : Timeval → Timeval → ℕ
cost st ed = u64 ((ed.tv_sec + 2 ^ 64 - st.tv_sec) * 1000000 + (ed.tv_usec + 2 ^ 64 - st.tv_usec))

-- One of the counts that `AddStat` keeps above a threshold.
unfoldable pub bump : ℕ → ℕ → ℕ → ℕ → ℕ
bump usec threshold num count = if leb threshold usec then u32 (num + count) else num

-- The private `AddStat`.
unfoldable pub add_item : Stater → StaterItem → Timeval → Timeval → ℕ → StaterItem
add_item s item st ed count =
    let usec = cost st ed in
    record item {
      total_num = u32 (item.total_num + count);
      max_cost_usec = if ltb item.max_cost_usec usec then usec else item.max_cost_usec;
      min_cost_usec = if ltb usec item.min_cost_usec then usec else item.min_cost_usec;
      threshold1_num = bump usec s.threshold1 item.threshold1_num count;
      threshold2_num = bump usec s.threshold2 item.threshold2_num count;
      threshold3_num = bump usec s.threshold3 item.threshold3_num count;
      total_cost_usec = u64 (item.total_cost_usec + usec);
    }

-- `BeginStat`.
unfoldable pub begin_stat : Timeval → Stater → Bytes → Stater
begin_stat now s k = record s {
  stat = put k (record (item_or (find k s.stat) (new_item now)) { begin_time = now }) s.stat;
}

-- `EndStat`, of what is behind the key: without `BeginStat` it does nothing.
unfoldable pub ended : Timeval → Stater → Bytes → ℕ → Option StaterItem → Stater
ended now s k count none = s
ended now s k count (some item) = record s {
  stat = put k (add_item s item item.begin_time now count) s.stat;
}

unfoldable pub end_stat : Timeval → Stater → Bytes → ℕ → Stater
end_stat now s k count = ended now s k count (find k s.stat)

-- The public `AddStat`.
unfoldable pub add_stat : Timeval → Stater → Bytes → Timeval → Timeval → ℕ → Stater
add_stat now s k st ed count = record s {
  stat = put k (add_item s (item_or (find k s.stat) (new_item now)) st ed count) s.stat;
}

abbrev pub counted : ℕ → StaterItem → StaterItem
counted count item = record item { total_num = u32 (item.total_num + count) }

-- `AddCount`.
unfoldable pub add_count : Timeval → Stater → Bytes → ℕ → Stater
add_count now s k count = record s {
  stat = put k (counted count (item_or (find k s.stat) (new_item now))) s.stat;
}

-- `DelStat`.
unfoldable pub del_stat : Stater → Bytes → Stater
del_stat s k = record s { stat = erase k s.stat }

-- The averages that `ToString` stores.
unfoldable pub averaged : StaterItem → StaterItem
averaged item =
    if item.total_num == 0
    then item
    else record item { avg_cost_usec = item.total_cost_usec / item.total_num }
