-- ===== src/NetQueue/Read.antt =====
-- Taking bytes from the head of a ring buffer: in one piece, or round its end (`DeQueue`).
use common_cc.Prelude.{
  ℕ, ◌+◌, ◌≤◌, ◌<◌, [], ◌∷◌, ◌++◌, ◌≡◌, refl, sym, ap, ◌∙◌, arith, Bytes, length, length-append,
  append_assoc, append-eq-append,
}
use common_cc.NetQueue.{reset_at}
use common_cc.NetQueue.Layout.{IsRing, straight, wrapped, len_eq, length_three}
use common_cc.NetQueue.Write.{reset_inside, reset_end}

-- The first bytes of the ring lie in one piece, and the ring without them.
pub record Ahead (buffer : Bytes) (head tail : ℕ) (bytes rest : Bytes) : Type 0 where
  pub before : Bytes
  pub after : Bytes
  pub parts : buffer ≡ before ++ (bytes ++ after)
  pub at : head ≡ length before
  pub ring : IsRing buffer (reset_at (length buffer) (head + length bytes)) tail rest

-- What is left of a wrapped ring when bytes are taken off its old end.
IsRing-rest :
    (buffer : Bytes) (tail head : ℕ) (bytes old gap new : Bytes)
    → buffer ≡ new ++ (gap ++ (bytes ++ old))
    → tail ≡ length new
    → head ≡ length new + length gap
    → 0 < length gap
    → IsRing buffer (reset_at (length buffer) (head + length bytes)) tail (old ++ new)
IsRing-rest buffer tail head bytes [] gap new e p q n =
    let l = len_eq e ∙ length_three new gap (bytes ++ []) in
    rw (reset_end (length buffer) (head + length bytes) (omega (arith, l, length-append bytes [])))
      (straight [] (gap ++ (bytes ++ [])) e refl (omega arith)
        (omega (arith, length-append gap (bytes ++ []))))
IsRing-rest buffer tail head bytes (x ∷ old) gap new e p q n =
    let l = len_eq e ∙ length_three new gap (bytes ++ x ∷ old) in
    rw
      (reset_inside (length buffer) (head + length bytes)
        (omega (arith, l, length-append bytes (x ∷ old))))
      (wrapped (x ∷ old) (gap ++ bytes) new (e ∙ (simp append_assoc)) p
        (omega (arith, length-append gap bytes)) (omega (arith, length-append gap bytes))
        (omega arith) refl)

pub IsRing-Ahead :
    {buffer : Bytes} {head tail : ℕ} (bytes rest : Bytes)
    → IsRing buffer head tail (bytes ++ rest)
    → head + length bytes ≤ length buffer
    → Ahead buffer head tail bytes rest
IsRing-Ahead {buffer} {head} {tail} bytes rest (straight a b e p q n) fits =
    let l = len_eq e ∙ length_three a (bytes ++ rest) b in
    let k = length-append bytes rest in
    record {
      before = a;
      after = rest ++ b;
      parts = e ∙ (simp append_assoc);
      at = p;
      ring = rw (reset_inside (length buffer) (head + length bytes) (omega (arith, l, k))) (
          straight (a ++ bytes) b (e ∙ (simp append_assoc)) (omega (arith, length-append a bytes))
            (omega (arith, k, length-append a bytes)) n);
    }
IsRing-Ahead {buffer} {head} {tail} bytes rest (wrapped old gap new e p q n m w) fits =
    let l = len_eq e ∙ length_three new gap old in
    let (old', eo, er) = append-eq-append old new bytes rest (sym w) (omega (arith, l)) in
    let e' : buffer ≡ new ++ (gap ++ (bytes ++ old')) = e ∙ ap (λ o. new ++ (gap ++ o)) eo in
    record {
      before = new ++ gap;
      after = old';
      parts = e' ∙ (simp append_assoc);
      at = omega (arith, length-append new gap);
      ring = rw er (IsRing-rest buffer tail head bytes old' gap new e' p q n);
    }

-- The first bytes of the ring go round the end, and the ring without them.
pub record Over (buffer : Bytes) (head tail : ℕ) (bytes rest : Bytes) : Type 0 where
  pub back : Bytes
  pub kept : Bytes
  pub front : Bytes
  pub parts : buffer ≡ front ++ (kept ++ back)
  pub at : head ≡ length front + length kept
  pub same : bytes ≡ back ++ front
  pub ring : IsRing buffer (length front) tail rest

pub IsRing-Over :
    {buffer : Bytes} {head tail : ℕ} (bytes rest : Bytes)
    → IsRing buffer head tail (bytes ++ rest)
    → length buffer < head + length bytes
    → Over buffer head tail bytes rest
IsRing-Over {buffer} {head} {tail} bytes rest (straight a b e p q n) over =
    absurd (omega (arith, len_eq e ∙ length_three a (bytes ++ rest) b, length-append bytes rest))
IsRing-Over {buffer} {head} {tail} bytes rest (wrapped old gap new e p q n m w) over =
    let l = len_eq e ∙ length_three new gap old in
    let (front, eb, en) = append-eq-append bytes rest old new w (omega (arith, l)) in
    let e' : buffer ≡ (front ++ rest) ++ (gap ++ old) = e ∙ ap (λ o. o ++ (gap ++ old)) en in
    record {
      back = old;
      kept = rest ++ gap;
      front = front;
      parts = e' ∙ (simp append_assoc);
      at = omega (arith, len_eq en, length-append front rest, length-append rest gap);
      same = eb;
      ring =
          straight front (gap ++ old) (e' ∙ append_assoc front rest (gap ++ old)) refl
            (omega (arith, len_eq en, length-append front rest))
            (omega (arith, length-append gap old));
    }
