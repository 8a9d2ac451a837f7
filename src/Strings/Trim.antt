-- ===== src/Strings/Trim.antt =====
-- `TrimBothSides`, `TrimLeft` and `TrimRight` of `StringUtility`.
use common_cc.Prelude.{
  ℕ, zero, suc, ◌+◌, ◌-◌, ◌≤◌, ◌<◌, ◌≡◌, ◌⊎◌, refl, Bool, true, false, [], ◌∷◌, ◌++◌, ltb, ◌==◌,
  if◌then◌else◌, Bytes, length, length-append, get_or, drop, All, arith, Bool-cases, inl, inr,
}
use native.Mathlib.Decide.{dec_le}
use common_cc.Prelude.Text.{contains, substr}

-- The first loop: how many bytes at the front are in `target`.
unfoldable pub begin_pos : Bytes → Bytes → ℕ
begin_pos target [] = 0
begin_pos target (c ∷ s) = if contains target c then suc (begin_pos target s) else 0

-- The second loop, from an index down: the last index from 1 on whose byte is not in `target`, or 0.
unfoldable pub end_pos : Bytes → Bytes → ℕ → ℕ
end_pos target s zero = 0
end_pos target s (suc n) =
    if contains target (get_or s (suc n) 0) then end_pos target s n else suc n

-- `TrimBothSides`.
unfoldable pub trim_both_sides : Bytes → Bytes → Bytes
trim_both_sides [] target = []
trim_both_sides (c ∷ r) target =
    let s = c ∷ r in
    let from = begin_pos target s in
    let to = end_pos target s (length s - 1) in
    if ltb to from then [] else substr s from (to - from + 1)

-- `TrimLeft`.
unfoldable pub trim_left : Bytes → Bytes → Bytes
trim_left [] target = []
trim_left (c ∷ r) target =
    let s = c ∷ r in
    let from = begin_pos target s in if from == length s - 1 then [] else drop from s

-- `TrimRight`.
unfoldable pub trim_right : Bytes → Bytes → Bytes
trim_right [] target = []
trim_right (c ∷ r) target =
    let s = c ∷ r in
    let to = end_pos target s (length s - 1) in if to == 0 then [] else substr s 0 (to + 1)

-- The byte at an index is to be trimmed.
abbrev pub trims : Bytes → Bytes → ℕ → Bool
trims target s i = contains target (get_or s i 0)

begin_pos-le : (target s : Bytes) → begin_pos target s ≤ length s
unfolding begin_pos
begin_pos-le target [] = omega arith
begin_pos-le target (c ∷ s) = ground (arith, begin_pos-le target s)

begin_before : (target s : Bytes) (k : ℕ) → k < begin_pos target s → trims target s k ≡ true
unfolding begin_pos
begin_before target [] k h = absurd (omega arith)
begin_before target (c ∷ s) zero h = ground arith
begin_before target (c ∷ s) (suc k) h = ground (arith, begin_before target s k)

begin_at :
    (target s : Bytes) → begin_pos target s < length s → trims target s (begin_pos target s) ≡ false
unfolding begin_pos
begin_at target [] h = absurd (omega arith)
begin_at target (c ∷ s) h = elim (Bool-cases (contains target c)) [
  | inl e ↦
      let short : begin_pos target s < length s = ground arith in rw e (begin_at target s short)
  | inr e ↦ rw e e
]

end_pos-le : (target s : Bytes) (n : ℕ) → end_pos target s n ≤ n
unfolding end_pos
end_pos-le target s zero = omega arith
end_pos-le target s (suc n) = ground (arith, end_pos-le target s n)

end_behind : (target s : Bytes) (n k : ℕ) → end_pos target s n < k → k ≤ n → trims target s k ≡ true
unfolding end_pos
end_behind target s zero k h l = absurd (omega arith)
end_behind target s (suc n) k h l = elim (Bool-cases (contains target (get_or s (suc n) 0))) [
  | inl e ↦ elim (dec_le k n) [
    | yes m ↦ end_behind target s n k (rw e at h) m
    | no m ↦ let last : k ≡ suc n = omega arith in rw last e
  ]
  | inr e ↦ absurd (omega (arith, rw e at h))
]

end_at :
    (target s : Bytes) (n : ℕ)
    → 0 < end_pos target s n
    → trims target s (end_pos target s n) ≡ false
unfolding end_pos
end_at target s zero h = absurd (omega arith)
end_at target s (suc n) h = elim (Bool-cases (contains target (get_or s (suc n) 0))) [
  | inl e ↦ rw e (end_at target s n (rw e at h))
  | inr e ↦ rw e e
]

-- The text between two of its indices, whose own bytes stay, and all others are to be trimmed.
pub record Trimmed (target s r : Bytes) : Type 0 where
  pub from : ℕ
  pub to : ℕ
  pub from_le_to : from ≤ to
  pub to_in : to < length s
  pub result : r ≡ substr s from (to - from + 1)
  pub first_stays : trims target s from ≡ false
  pub last_stays : trims target s to ≡ false
  pub before_goes : (k : ℕ) → k < from → trims target s k ≡ true
  pub behind_goes : (k : ℕ) → to < k → k < length s → trims target s k ≡ true

-- `TrimBothSides` cuts off exactly the bytes of `target` at both ends: either every byte is one of
-- them and nothing is left, or what is left begins and ends with other bytes and only bytes of
-- `target` stood before and behind it.
pub trim_both_sides_lem :
    (s target : Bytes)
    → (trim_both_sides s target ≡ []) × ((k : ℕ) → k < length s → trims target s k ≡ true)
      ⊎ Trimmed target s (trim_both_sides s target)
unfolding trim_both_sides
trim_both_sides_lem [] target = inl (refl, λ k h. absurd (omega arith))
trim_both_sides_lem (c ∷ r) target =
    let s : Bytes = c ∷ r in
    let from : ℕ = begin_pos target s in
    let to : ℕ = end_pos target s (length s - 1) in
    let to_le : to ≤ length s - 1 = end_pos-le target s (length s - 1) in
    elim (Bool-cases (ltb to from)) [
      | inl h ↦ inl (
        rw h,
        λ k l. elim (dec_le from k) [
          | yes m ↦ end_behind target s (length s - 1) k (ground arith) (omega arith)
          | no m ↦ begin_before target s k (omega arith)
        ],
      )
      | inr h ↦
          let order : from ≤ to = ground arith in
          let here : trims target s from ≡ false = begin_at target s (omega arith) in
          inr (record {
            from = from;
            to = to;
            from_le_to = order;
            to_in = omega arith;
            result = rw h;
            first_stays = here;
            last_stays = elim (dec_le to 0) [
              | yes z ↦ let same : to ≡ from = omega arith in rw same here
              | no z ↦ end_at target s (length s - 1) (omega arith)
            ];
            before_goes = λ k l. begin_before target s k l;
            behind_goes = λ k l m. end_behind target s (length s - 1) k l (omega arith);
          })
    ]

begin_pos-append :
    (target blanks s : Bytes)
    → All (λ c. contains target c ≡ true) blanks
    → begin_pos target (blanks ++ s) ≡ length blanks + begin_pos target s
unfolding begin_pos
begin_pos-append target [] s h = omega arith
begin_pos-append target (c ∷ b) s h = rw (h.0) (omega (arith, begin_pos-append target b s h.1))

-- `TrimLeft` loses a single byte: where all bytes but the last are to be trimmed, nothing is left.
trim_left_single :
    (target blanks : Bytes) (c : ℕ)
    → All (λ b. contains target b ≡ true) blanks
    → contains target c ≡ false
    → trim_left (blanks ++ (c ∷ [])) target ≡ []
unfolding trim_left
trim_left_single target [] c h e = unfold begin_pos in rw e
trim_left_single target (b ∷ blanks) c h e =
    let none_more : begin_pos target (c ∷ []) ≡ 0 = unfold begin_pos in rw e in
    ground (
      arith,
      begin_pos-append target (b ∷ blanks) (c ∷ []) h,
      length-append blanks (c ∷ []),
      none_more,
    )

All-at :
    (target blanks : Bytes) (k : ℕ)
    → k < length blanks
    → All (λ b. contains target b ≡ true) blanks
    → trims target blanks k ≡ true
All-at target [] k l h = absurd (omega arith)
All-at target (b ∷ blanks) zero l h = h.0
All-at target (b ∷ blanks) (suc k) l h = All-at target blanks k (omega arith) h.1

end_pos-zero :
    (target : Bytes) (c : ℕ) (blanks : Bytes) (n : ℕ)
    → n ≤ length blanks
    → All (λ b. contains target b ≡ true) blanks
    → end_pos target (c ∷ blanks) n ≡ 0
unfolding end_pos
end_pos-zero target c blanks zero l h = refl
end_pos-zero target c blanks (suc n) l h =
    rw (All-at target blanks n l h) (end_pos-zero target c blanks n (omega arith) h)

-- `TrimRight` loses a single byte: where all bytes but the first are to be trimmed, nothing is left.
trim_right_single :
    (target blanks : Bytes) (c : ℕ)
    → All (λ b. contains target b ≡ true) blanks
    → trim_right (c ∷ blanks) target ≡ []
unfolding trim_right
trim_right_single target blanks c h =
    ground (arith, end_pos-zero target c blanks (length blanks) (omega arith) h)

-- A single byte is lost. `TrimLeft`: where all bytes but the last are to be trimmed, nothing is left.
-- `TrimRight`: where all bytes but the first are to be trimmed, nothing is left.
trim_single :
    (target blanks : Bytes) (c : ℕ)
    → All (λ b. contains target b ≡ true) blanks
    → contains target c ≡ false
    → (trim_left (blanks ++ (c ∷ [])) target ≡ []) × (trim_right (c ∷ blanks) target ≡ [])
trim_single target blanks c h e =
    (trim_left_single target blanks c h e, trim_right_single target blanks c h)
