-- ===== src/Stater/Counts.antt =====
-- What `AddStat` counts over many calls.
use common_cc.Prelude.{
  ℕ, All, ◌+◌, ◌-◌, ◌*◌, ◌%◌, ◌^◌, ◌≤◌, ◌<◌, ◌≡◌, ◌∙◌, refl, ap, some, List, [], ◌∷◌, Bytes, leb,
  ltb, if◌then◌else◌, arith,
}
use common_cc.Stater.{Timeval, StaterItem, Stater, cost, bump, add_item, new_item, add_stat, find}
use common_cc.Stater.Keys.{find-put}

-- The times and the count of a call of `AddStat`.
pub record Call : Type 0 where
  pub st : Timeval
  pub ed : Timeval
  pub count : ℕ

-- The calls one after the other, on one item.
unfoldable pub add_items : Stater → StaterItem → List Call → StaterItem
add_items s item [] = item
add_items s item (c ∷ cs) = add_items s (add_item s item c.st c.ed c.count) cs

-- The time that a call of `AddStat` took, in microseconds.
abbrev pub micros : Timeval → ℕ
micros t = t.tv_sec * 1000000 + t.tv_usec

abbrev pub passed : Call → ℕ
passed c = micros c.ed - micros c.st

-- Two times in order, that fit 63 bits.
abbrev pub IsSpan : Call → Type 0
IsSpan c = (micros c.st ≤ micros c.ed) × (micros c.ed < 2 ^ 63) × (c.st.tv_usec < 1000000)

-- What `AddStat` takes for it.
abbrev code : Call → ℕ
code c = cost c.st c.ed

code-passed : (c : Call) → IsSpan c → code c ≡ passed c
unfolding cost
code-passed c h = omega (arith, h.0, h.1, h.2)

-- By a measure of calls: how many operations were counted by the calls that took at least so long.
unfoldable pub slow : (Call → ℕ) → ℕ → List Call → ℕ
slow by threshold [] = 0
slow by threshold (c ∷ cs) = (if leb threshold (by c) then c.count else 0) + slow by threshold cs

-- The sum of the times, and the greatest and the least of them and a number.
unfoldable pub total : (Call → ℕ) → List Call → ℕ
total by [] = 0
total by (c ∷ cs) = by c + total by cs

unfoldable pub greatest : (Call → ℕ) → ℕ → List Call → ℕ
greatest by m [] = m
greatest by m (c ∷ cs) = greatest by (if ltb m (by c) then by c else m) cs

unfoldable pub least : (Call → ℕ) → ℕ → List Call → ℕ
least by m [] = m
least by m (c ∷ cs) = least by (if ltb (by c) m then by c else m) cs

-- What is so for a measure is so for another one with the same numbers.
abbrev Same : (Call → ℕ) → (Call → ℕ) → List Call → Type 0
Same f g cs = All (λ c. f c ≡ g c) cs

slow-Same : (f g : Call → ℕ) (n : ℕ) (cs : List Call) → Same f g cs → slow f n cs ≡ slow g n cs
unfolding slow
slow-Same f g n [] h = refl
slow-Same f g n (c ∷ cs) h = rw (h.0, slow-Same f g n cs h.1) refl

total-Same : (f g : Call → ℕ) (cs : List Call) → Same f g cs → total f cs ≡ total g cs
unfolding total
total-Same f g [] h = refl
total-Same f g (c ∷ cs) h = rw (h.0, total-Same f g cs h.1) refl

greatest-Same :
    (f g : Call → ℕ) (m : ℕ) (cs : List Call) → Same f g cs → greatest f m cs ≡ greatest g m cs
unfolding greatest
greatest-Same f g m [] h = refl
greatest-Same f g m (c ∷ cs) h =
    rw (h.0) (greatest-Same f g (if ltb m (g c) then g c else m) cs h.1)

least-Same : (f g : Call → ℕ) (m : ℕ) (cs : List Call) → Same f g cs → least f m cs ≡ least g m cs
unfolding least
least-Same f g m [] h = refl
least-Same f g m (c ∷ cs) h = rw (h.0) (least-Same f g (if ltb (g c) m then g c else m) cs h.1)

spans-Same : (cs : List Call) → All IsSpan cs → Same code passed cs
spans-Same [] h = tt
spans-Same (c ∷ cs) h = (code-passed c h.0, spans-Same cs h.1)

-- What many calls of `AddStat` made of an item. The counts and the sum wrap around.
pub record Sums (by : Call → ℕ) (s : Stater) (old new : StaterItem) (cs : List Call) : Type 0 where
  pub total_num_is : new.total_num ≡ (old.total_num + slow by 0 cs) % 2 ^ 32
  pub threshold1_is : new.threshold1_num ≡ (old.threshold1_num + slow by s.threshold1 cs) % 2 ^ 32
  pub threshold2_is : new.threshold2_num ≡ (old.threshold2_num + slow by s.threshold2 cs) % 2 ^ 32
  pub threshold3_is : new.threshold3_num ≡ (old.threshold3_num + slow by s.threshold3 cs) % 2 ^ 32
  pub total_cost_is : new.total_cost_usec ≡ (old.total_cost_usec + total by cs) % 2 ^ 64
  pub max_is : new.max_cost_usec ≡ greatest by old.max_cost_usec cs
  pub min_is : new.min_cost_usec ≡ least by old.min_cost_usec cs

-- The numbers of an item fit their fields.
pub record Fits (i : StaterItem) : Type 0 where
  pub total_num_fits : i.total_num < 2 ^ 32
  pub threshold1_fits : i.threshold1_num < 2 ^ 32
  pub threshold2_fits : i.threshold2_num < 2 ^ 32
  pub threshold3_fits : i.threshold3_num < 2 ^ 32
  pub total_cost_fits : i.total_cost_usec < 2 ^ 64

bump_lem :
    (usec threshold num count n : ℕ)
    → (bump usec threshold num count + n) % 2 ^ 32
      ≡ (num + ((if leb threshold usec then count else 0) + n)) % 2 ^ 32
unfolding bump
bump_lem usec threshold num count n = ground arith

bump_fits : (usec threshold num count : ℕ) → num < 2 ^ 32 → bump usec threshold num count < 2 ^ 32
unfolding bump
bump_fits usec threshold num count h = ground arith

add_item-Fits :
    (s : Stater) (i : StaterItem) (c : Call) → Fits i → Fits (add_item s i c.st c.ed c.count)
unfolding add_item
add_item-Fits s i c h = record {
  total_num_fits = omega arith;
  threshold1_fits =
      bump_fits (cost c.st c.ed) s.threshold1 i.threshold1_num c.count h.threshold1_fits;
  threshold2_fits =
      bump_fits (cost c.st c.ed) s.threshold2 i.threshold2_num c.count h.threshold2_fits;
  threshold3_fits =
      bump_fits (cost c.st c.ed) s.threshold3 i.threshold3_num c.count h.threshold3_fits;
  total_cost_fits = omega arith;
}

-- By what the code takes for the times.
add_items-code :
    (s : Stater) (item : StaterItem) (cs : List Call)
    → Fits item
    → Sums code s item (add_items s item cs) cs
unfolding add_items slow total greatest least add_item
add_items-code s item [] h = record {
  total_num_is = omega (arith, h.total_num_fits);
  threshold1_is = omega (arith, h.threshold1_fits);
  threshold2_is = omega (arith, h.threshold2_fits);
  threshold3_is = omega (arith, h.threshold3_fits);
  total_cost_is = omega (arith, h.total_cost_fits);
  max_is = refl;
  min_is = refl;
}
add_items-code s item (c ∷ cs) h =
    let next : StaterItem = add_item s item c.st c.ed c.count in
    let rest : Sums code s next (add_items s next cs) cs =
      add_items-code s next cs (add_item-Fits s item c h) in
    let usec : ℕ = cost c.st c.ed in
    record {
      total_num_is = ground (arith, rest.total_num_is);
      threshold1_is =
          rest.threshold1_is
          ∙ bump_lem usec s.threshold1 item.threshold1_num c.count (slow code s.threshold1 cs);
      threshold2_is =
          rest.threshold2_is
          ∙ bump_lem usec s.threshold2 item.threshold2_num c.count (slow code s.threshold2 cs);
      threshold3_is =
          rest.threshold3_is
          ∙ bump_lem usec s.threshold3 item.threshold3_num c.count (slow code s.threshold3 cs);
      total_cost_is = omega (arith, rest.total_cost_is);
      max_is = rest.max_is;
      min_is = rest.min_is;
    }

-- After any calls of `AddStat`, each with two times in order, on an item whose numbers fit their
-- fields, the item has the number of operations, the numbers of those whose times are at or above
-- each threshold and the sum of the times, all modulo the size of their fields; the greatest of the
-- times and the greatest before; and the least of the times and the least before, which is an hour
-- for a new item.
pub add_items_lem :
    (s : Stater) (item : StaterItem) (cs : List Call)
    → Fits item
    → All IsSpan cs
    → Sums passed s item (add_items s item cs) cs
add_items_lem s item cs h spans =
    let sums = add_items-code s item cs h in
    let same = spans-Same cs spans in
    let by_slow : (n : ℕ) → slow code n cs ≡ slow passed n cs =
      λ n. slow-Same code passed n cs same in
    record {
      total_num_is = sums.total_num_is ∙ ap (λ k. (item.total_num + k) % 2 ^ 32) (by_slow 0);
      threshold1_is =
          sums.threshold1_is ∙ ap (λ k. (item.threshold1_num + k) % 2 ^ 32) (by_slow s.threshold1);
      threshold2_is =
          sums.threshold2_is ∙ ap (λ k. (item.threshold2_num + k) % 2 ^ 32) (by_slow s.threshold2);
      threshold3_is =
          sums.threshold3_is ∙ ap (λ k. (item.threshold3_num + k) % 2 ^ 32) (by_slow s.threshold3);
      total_cost_is =
          sums.total_cost_is
          ∙ ap (λ k. (item.total_cost_usec + k) % 2 ^ 64) (total-Same code passed cs same);
      max_is = sums.max_is ∙ greatest-Same code passed item.max_cost_usec cs same;
      min_is = sums.min_is ∙ least-Same code passed item.min_cost_usec cs same;
    }

-- Of two thresholds the higher is reached by no more operations.
slow-le : (low high : ℕ) (cs : List Call) → low ≤ high → slow code high cs ≤ slow code low cs
unfolding slow
slow-le low high [] h = omega arith
slow-le low high (c ∷ cs) h = ground (arith, slow-le low high cs h)

-- Where the three thresholds are in order, and fewer than 2 ^ 32 operations were counted on a new
-- item, no more of them reached a higher threshold than a lower one.
thresholds_nested :
    (s : Stater) (now : Timeval) (cs : List Call)
    → s.threshold1 ≤ s.threshold2
    → s.threshold2 ≤ s.threshold3
    → slow code 0 cs < 2 ^ 32
    → let item : StaterItem = add_items s (new_item now) cs in
      (item.threshold3_num ≤ item.threshold2_num)
      × (item.threshold2_num ≤ item.threshold1_num)
      × (item.threshold1_num ≤ item.total_num)
thresholds_nested s now cs h k l =
    let sums : Sums code s (new_item now) (add_items s (new_item now) cs) cs =
      add_items-code s (new_item now) cs (record {
        total_num_fits = omega arith;
        threshold1_fits = omega arith;
        threshold2_fits = omega arith;
        threshold3_fits = omega arith;
        total_cost_fits = omega arith;
      }) in
    let high = slow-le s.threshold2 s.threshold3 cs k in
    let middle = slow-le s.threshold1 s.threshold2 cs h in
    let low = slow-le 0 s.threshold1 cs (omega arith) in
    (
      omega (arith, sums.threshold3_is, sums.threshold2_is),
      omega (arith, sums.threshold2_is, sums.threshold1_is),
      omega (arith, sums.threshold1_is, sums.total_num_is),
    )

add_items-stat :
    (s : Stater) (t : List (Bytes × StaterItem)) (item : StaterItem) (cs : List Call)
    → add_items (record s { stat = t }) item cs ≡ add_items s item cs
unfolding add_items add_item
add_items-stat s t item [] = refl
add_items-stat s t item (c ∷ cs) = add_items-stat s t (add_item s item c.st c.ed c.count) cs

-- The public `AddStat`, over and over on one key.
unfoldable pub add_stats : Timeval → Stater → Bytes → List Call → Stater
add_stats now s k [] = s
add_stats now s k (c ∷ cs) = add_stats now (add_stat now s k c.st c.ed c.count) k cs

-- Calls of the public `AddStat` on one key make of its item what the private one makes of it.
find-add_stats :
    (now : Timeval) (s : Stater) (k : Bytes) (item : StaterItem) (cs : List Call)
    → find k s.stat ≡ some item
    → find k (add_stats now s k cs).stat ≡ some (add_items s item cs)
unfolding add_stats add_stat add_items
find-add_stats now s k item [] h = h
find-add_stats now s k item (c ∷ cs) h =
    let next : StaterItem = add_item s item c.st c.ed c.count in
    let here : find k (add_stat now s k c.st c.ed c.count).stat ≡ some next =
      rw h (find-put k next s.stat) in
    find-add_stats now (add_stat now s k c.st c.ed c.count) k next cs here
    ∙ ap some (add_items-stat s _ next cs)

-- An interval that ends before it begins, by at most 2 ^ 63 microseconds, counts as a cost of at
-- least 2 ^ 63 microseconds; its beginning is before the second 2 ^ 63, with its microseconds below
-- a second.
cost-backwards :
    (st ed : Timeval)
    → ed.tv_sec * 1000000 + ed.tv_usec < st.tv_sec * 1000000 + st.tv_usec
    → st.tv_sec * 1000000 + st.tv_usec ≤ ed.tv_sec * 1000000 + ed.tv_usec + 2 ^ 63
    → st.tv_sec < 2 ^ 63
    → st.tv_usec < 1000000
    → 2 ^ 63 ≤ cost st ed
unfolding cost
cost-backwards st ed h k l m = omega arith
