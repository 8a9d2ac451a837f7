-- ===== src/NetQueue/Layout.antt =====
-- Where the bytes of a ring buffer lie, and what `memcpy` at its two indices does to them
-- (`EnQueue` and `DeQueue` of net/net_queue.cc).
use common_cc.Prelude.{
  ℕ, ◌+◌, ◌≤◌, ◌<◌, ◌++◌, ◌≡◌, sym, ap, ◌∙◌, ◌⊎◌, inl, inr, arith, Bytes, length, take, drop,
  length-append, length-take, take-append-drop,
}

-- The bytes between `head` and `tail` are `held`: they lie in one piece, or go round the end.
pub data IsRing (buffer : Bytes) (head tail : ℕ) (held : Bytes) : Type 0 where
  straight :
      (before after : Bytes)
      → buffer ≡ before ++ (held ++ after)
      → head ≡ length before
      → tail ≡ length before + length held
      → 0 < length after
      → IsRing buffer head tail held
  wrapped :
      (old gap new : Bytes)
      → buffer ≡ new ++ (gap ++ old)
      → tail ≡ length new
      → head ≡ length new + length gap
      → 0 < length gap
      → 0 < length old
      → held ≡ old ++ new
      → IsRing buffer head tail held

pub len_eq : {xs ys : Bytes} → xs ≡ ys → length xs ≡ length ys
len_eq e = ap (λ (l : Bytes). length l) e

-- A list cut after its first `n` elements.
pub cut : (n : ℕ) (xs : Bytes) → n ≤ length xs → (a b : Bytes) × (xs ≡ a ++ b) × (length a ≡ n)
cut n xs h = (take n xs, drop n xs, sym (take-append-drop n xs), omega (arith, length-take n xs))

pub length_three : (a b c : Bytes) → length (a ++ (b ++ c)) ≡ length a + length b + length c
length_three a b c = omega (arith, length-append a (b ++ c), length-append b c)

-- What the indices say of the number of bytes held.
pub record Measures (buffer : Bytes) (head tail : ℕ) (held : Bytes) : Type 0 where
  pub head_in : head < length buffer
  pub tail_in : tail < length buffer
  pub held_lt : length held < length buffer
  pub size :
      (head ≤ tail) × (tail ≡ head + length held)
      ⊎ (tail < head) × (tail + length buffer ≡ head + length held)

pub IsRing-Measures :
    {buffer : Bytes} {head tail : ℕ} {held : Bytes}
    → IsRing buffer head tail held
    → Measures buffer head tail held
IsRing-Measures {buffer} {head} {tail} {held} (straight a b e p q n) =
    let l : length buffer ≡ length a + length held + length b = len_eq e ∙ length_three a held b in
    record {
      head_in = omega arith;
      tail_in = omega arith;
      held_lt = omega arith;
      size = inl (omega arith, omega arith);
    }
IsRing-Measures {buffer} {head} {tail} {held} (wrapped old gap new e p q n m w) =
    let l : length buffer ≡ length new + length gap + length old =
      len_eq e ∙ length_three new gap old in
    let k : length held ≡ length old + length new = len_eq w ∙ length-append old new in
    record {
      head_in = omega arith;
      tail_in = omega arith;
      held_lt = omega arith;
      size = inr (omega arith, omega arith);
    }
