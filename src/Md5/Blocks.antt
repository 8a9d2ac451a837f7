-- ===== src/Md5/Blocks.antt =====
-- `MD5::update`: the buffer and the state after the copies and the work on whole blocks.
use common_cc.Prelude.{
  ℕ, zero, suc, ◌+◌, ◌-◌, ◌*◌, ◌/◌, ◌%◌, ◌^◌, ◌≤◌, ◌<◌, ◌≡◌, ◌∙◌, refl, ap, sym, some, ◌++◌, length,
  take, drop, length-append, length-take, length-drop, drop-drop, take-append_ge, drop-append_ge,
  drop-all, take-append, append-nil, append_assoc, leb, leb→le, le→leb, true, false, Bytes, arith,
  Bool-cases, inl, inr,
}
use common_cc.Prelude.Memory.{store, store-some}
use common_cc.Prelude.Word.{u32}
use common_cc.Prelude.Blocks.{absorb}
use common_cc.Md5.{Md5, transform_blocks, fill}
use common_cc.Md5.Transform.{State, transform}

transform_blocks_lem :
    (fuel i : ℕ) (s : State) (y : Bytes)
    → length y < fuel
    → i + length y < 2 ^ 32 - 64
    → transform_blocks fuel s i y
      ≡ some (absorb transform (length y / 64) s y, drop (length y / 64 * 64) y)
unfolding transform_blocks absorb
transform_blocks_lem zero i s y h l = absurd (omega arith)
transform_blocks_lem (suc fuel) i s y h l = elim (Bool-cases (leb 64 (length y))) [
  | inl e ↦
      let long : 64 ≤ length y = ground (arith, e) in
      let test : leb (u32 (i + 64)) (i + length y) ≡ true = le→leb _ _ (omega arith) in
      let size = length-drop 64 y in
      let one : length y / 64 ≡ suc (length (drop 64 y) / 64) = omega arith in
      let off : 64 + length (drop 64 y) / 64 * 64 ≡ suc (length (drop 64 y) / 64) * 64 =
        omega arith in
      rw
        (
          test,
          e,
          one,
          transform_blocks_lem fuel (i + 64) (transform s (take 64 y)) (drop 64 y) (omega arith)
              (omega arith),
          drop-drop (length (drop 64 y) / 64 * 64) 64 y,
          off,
        )
        refl
  | inr e ↦
      let short : length y < 64 = ground (arith, e) in
      let test : leb (u32 (i + 64)) (i + length y) ≡ false = ground (arith, short, l) in
      let none_whole : length y / 64 ≡ 0 = omega arith in rw (test, none_whole) refl
]

-- The buffer with the bytes that wait in front, and its state, after more bytes. It holds what the
-- whole blocks leave.
pub record Filled (s : State) (y : Bytes) (m m' : Md5) : Type 0 where
  pub state_is : m'.state ≡ absorb transform (length y / 64) s y
  pub tail_is : take (length y % 64) m'.buffer ≡ drop (length y / 64 * 64) y
  pub size : length m'.buffer ≡ 64
  pub same_lo : m'.count_lo ≡ m.count_lo
  pub same_hi : m'.count_hi ≡ m.count_hi
  pub same_finalized : m'.finalized ≡ m.finalized

pub fill_lem :
    (index : ℕ) (m : Md5) (x y : Bytes)
    → index < 64
    → length m.buffer ≡ 64
    → take index m.buffer ++ x ≡ y
    → length x < 2 ^ 32 - 64
    → (m' : Md5) × (fill index m x ≡ some m') × Filled m.state y m m'
unfolding fill absorb
fill_lem index m x y i b e l =
    let r : Bytes = take index m.buffer in
    let r_size : length r ≡ index = omega (arith, length-take index m.buffer) in
    let y_size : length y ≡ index + length x =
      ap (λ (l : Bytes). length l) (sym e) ∙ omega (arith, length-append r x) in
    elim (Bool-cases (leb (64 - index) (length x))) [
      | inl h ↦
          let enough : 64 - index ≤ length x = leb→le _ _ h in
          let part : Bytes = take (64 - index) x in
          let part_size : length part ≡ 64 - index = omega (arith, length-take (64 - index) x) in
          let off : 64 - length r ≡ 64 - index = omega arith in
          let full_is : r ++ (part ++ drop (index + length part) m.buffer) ≡ take 64 y =
            rw
              (
                drop-all (index + length part) m.buffer (omega arith),
                append-nil part,
                ← e,
                take-append_ge 64 r x (omega arith),
                off,
              )
              refl in
          let rest_is : drop (64 - index) x ≡ drop 64 y =
            rw (← e, drop-append_ge 64 r x (omega arith), off) refl in
          let full : Bytes = take 64 y in
          let rest : Bytes = drop 64 y in
          let k : ℕ = length rest / 64 in
          let left : Bytes = drop (k * 64) rest in
          let rest_size : length rest ≡ length y - 64 = length-drop 64 y in
          let left_size : length left ≡ length rest - k * 64 = length-drop (k * 64) rest in
          let full_size : length full ≡ 64 = omega (arith, length-take 64 y) in
          let filled : store m.buffer index part ≡ some full =
            store-some m.buffer part index (omega arith) ∙ ap some full_is in
          let worked =
            transform_blocks_lem (suc (length x)) (64 - index) (transform m.state full) rest
              (omega arith) (omega arith) in
          let kept : Bytes = left ++ drop (0 + length left) full in
          let stored : store full 0 left ≡ some kept = store-some full left 0 (omega arith) in
          let one : suc k ≡ length y / 64 = omega arith in
          let same_off : 64 + k * 64 ≡ length y / 64 * 64 = omega arith in
          let waiting : length y % 64 ≡ length left = omega arith in
          rw (h, rest_is, filled, worked, stored)
            (
              record m { state = absorb transform k (transform m.state full) rest; buffer = kept },
              refl,
              record {
                state_is = ap (λ j. absorb transform j m.state y) one;
                tail_is =
                    ap (λ j. take j kept) waiting
                    ∙ take-append left (drop (0 + length left) full)
                    ∙ drop-drop (k * 64) 64 y
                    ∙ ap (λ j. drop j y) same_off;
                size = omega (
                  arith,
                  length-append left (drop (0 + length left) full),
                  length-drop (0 + length left) full,
                );
                same_lo = refl;
                same_hi = refl;
                same_finalized = refl;
              },
            )
      | inr h ↦
          let short : length x < 64 - index = ground (arith, h) in
          let behind : Bytes = drop (index + length x) m.buffer in
          let stored : store m.buffer index x ≡ some (r ++ (x ++ behind)) =
            store-some m.buffer x index (omega arith) in
          let none_whole : 0 ≡ length y / 64 = omega arith in
          let no_off : 0 ≡ length y / 64 * 64 = omega arith in
          let waiting : length y % 64 ≡ length y = omega arith in
          let joined : r ++ (x ++ behind) ≡ y ++ behind =
            sym (append_assoc r x behind) ∙ ap (λ z. z ++ behind) e in
          rw (h, stored)
            (
              record m { buffer = r ++ (x ++ behind) },
              refl,
              record {
                state_is = ap (λ j. absorb transform j m.state y) none_whole;
                tail_is =
                    ap (λ j. take j (r ++ (x ++ behind))) waiting
                    ∙ ap (λ z. take (length y) z) joined
                    ∙ take-append y behind
                    ∙ ap (λ j. drop j y) no_off;
                size = omega (
                  arith,
                  length-append r (x ++ behind),
                  length-append x behind,
                  length-drop (index + length x) m.buffer,
                );
                same_lo = refl;
                same_hi = refl;
                same_finalized = refl;
              },
            )
    ]
