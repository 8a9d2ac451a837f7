-- ===== src/NetQueue/CopyIn.antt =====
-- `EnQueue` copies a message behind its length, in each of its three ways.
use common_cc.Prelude.{
  ℕ, ◌+◌, ◌-◌, ◌≤◌, ◌<◌, ◌^◌, Option, some, [], ◌++◌, ◌≡◌, refl, sym, ap, ◌∙◌, inl, inr, arith,
  Bytes, length, take, drop, length-append, append_assoc, append-nil, Bool-cases, leb, ◌>>=◌,
  take-append-drop, length-take, length-drop, leb→le,
}
use common_cc.Prelude.Memory.{store, store_lem}
use common_cc.Prelude.Word.{u32, sub32, bytes32}
use common_cc.NetQueue.{
  reset_at, copy_straight, copy_split_content, copy_split_length, copy_in, size_word,
}
use common_cc.NetQueue.Layout.{IsRing, len_eq, IsRing-Measures, cut, length_three}
use common_cc.NetQueue.Write.{Around, IsRing-Place, IsRing-Around, reset_inside}

-- A message as it stands in the buffer.
abbrev pub frame : Bytes → Bytes
frame content = bytes32 (length content) ++ content

pub length-bytes32 : (n : ℕ) → length (bytes32 n) ≡ 4
unfolding bytes32
length-bytes32 n = refl

pub length-frame : (content : Bytes) → length (frame content) ≡ length content + 4
length-frame content =
    omega (arith, length-append (bytes32 (length content)) content, length-bytes32 (length content))

-- Stores one after the other, and what runs on the block that they leave.
module _ {C : Type 0} (k : Bytes → Option C) where
  store_one :
      (P M S x : Bytes) (at : ℕ)
      → at ≡ length P
      → length M ≡ length x
      → (store (P ++ (M ++ S)) at x >>= k) ≡ k (P ++ (x ++ S))
  store_one P M S x at e h = ap (λ (o : Option Bytes). o >>= k) (store_lem P M S x at e h)

-- Two pieces, one behind the other.
module _ {C : Type 0} (k : Bytes → Option C) where
  store_two :
      (P M S x y : Bytes) (at at' : ℕ)
      → at ≡ length P
      → at' ≡ at + length x
      → length M ≡ length x + length y
      → (store (P ++ (M ++ S)) at x >>= λ b. store b at' y >>= k) ≡ k (P ++ ((x ++ y) ++ S))
  store_two P M S x y at at' e e' h =
      let (m, m', em, lm) = cut (length x) M (omega arith) in
      let l : length M ≡ length m + length m' = len_eq em ∙ length-append m m' in
      ap (λ (l : Bytes). store (P ++ (l ++ S)) at x >>= λ b. store b at' y >>= k) em
      ∙ ap (λ (l : Bytes). store (P ++ l) at x >>= λ b. store b at' y >>= k) (append_assoc m m' S)
      ∙ store_one (λ b. store b at' y >>= k) P m (m' ++ S) x at e lm
      ∙ ap (λ (l : Bytes). store l at' y >>= k) (sym (append_assoc P x (m' ++ S)))
      ∙ store_one k (P ++ x) m' S y at' (omega (arith, length-append P x)) (omega arith)
      ∙ ap k (simp append_assoc)

-- Pieces at the two ends of a block.
module _ {C : Type 0} (k : Bytes → Option C) where
  store_back :
      (P M x : Bytes) (at : ℕ)
      → at ≡ length P
      → length M ≡ length x
      → (store (P ++ M) at x >>= k) ≡ k (P ++ x)
  store_back P M x at e h =
      ap (λ (l : Bytes). store (P ++ l) at x >>= k) (sym (append-nil M))
      ∙ store_one k P M [] x at e h
      ∙ ap (λ (l : Bytes). k (P ++ l)) (append-nil x)

  store_back_two :
      (P M x y : Bytes) (at at' : ℕ)
      → at ≡ length P
      → at' ≡ at + length x
      → length M ≡ length x + length y
      → (store (P ++ M) at x >>= λ b. store b at' y >>= k) ≡ k (P ++ (x ++ y))
  store_back_two P M x y at at' e e' h =
      ap (λ (l : Bytes). store (P ++ l) at x >>= λ b. store b at' y >>= k) (sym (append-nil M))
      ∙ store_two k P M [] x y at at' e e' h
      ∙ ap (λ (l : Bytes). k (P ++ l)) (append-nil (x ++ y))

-- Two pieces at the back of the block, and one at its front.
module _ {C : Type 0} (k : Bytes → Option C) where
  store_split_content :
      (front kept back x y z : Bytes) (at at' : ℕ)
      → at ≡ length front + length kept
      → at' ≡ at + length x
      → length back ≡ length x + length y
      → length front ≡ length z
      → (store (front ++ (kept ++ back)) at x >>= λ b. store b at' y >>= λ b'. store b' 0 z >>= k)
        ≡ k (z ++ (kept ++ (x ++ y)))
  store_split_content front kept back x y z at at' e e' h h' =
      let front_piece = λ (b : Bytes). store b 0 z >>= k in
      ap (λ (l : Bytes). store l at x >>= λ b. store b at' y >>= front_piece)
        (sym (append_assoc front kept back))
      ∙ store_back_two front_piece (front ++ kept) back x y at at'
          (omega (arith, length-append front kept)) e' h
      ∙ ap front_piece (append_assoc front kept (x ++ y))
      ∙ store_one k [] front (kept ++ (x ++ y)) z 0 refl h'

  -- One piece at the back of the block, and two at its front.
  store_split_length :
      (front kept back x y z : Bytes) (at at' : ℕ)
      → at ≡ length front + length kept
      → at' ≡ length y
      → length back ≡ length x
      → length front ≡ length y + length z
      → (store (front ++ (kept ++ back)) at x >>= λ b. store b 0 y >>= λ b'. store b' at' z >>= k)
        ≡ k ((y ++ z) ++ (kept ++ x))
  store_split_length front kept back x y z at at' e e' h h' =
      let front_pieces = λ (b : Bytes). store b 0 y >>= λ b'. store b' at' z >>= k in
      ap (λ (l : Bytes). store l at x >>= front_pieces) (sym (append_assoc front kept back))
      ∙ store_back front_pieces (front ++ kept) back x at (omega (arith, length-append front kept))
          h
      ∙ ap front_pieces (append_assoc front kept x)
      ∙ store_two k [] front (kept ++ x) y z 0 at' refl (omega arith) h'

-- What `copy_in` promises of a buffer with room.
pub record Copied (buffer : Bytes) (head : ℕ) (held : Bytes) (out : Bytes × ℕ) : Type 0 where
  pub ring : IsRing out.0 head (reset_at (length buffer) out.1) held
  pub same : length out.0 ≡ length buffer

module _ {buffer : Bytes} {head tail : ℕ} {held : Bytes} (content : Bytes)
    (small : length buffer < 2 ^ 32) (ring : IsRing buffer head tail held)
    (room : length held + length content + 4 < length buffer) where
  -- What one of the ways `copy` achieves.
  abbrev Achieves : Option (Bytes × ℕ) → Type 0
  Achieves copy =
      (out : Bytes × ℕ) × (copy ≡ some out) × Copied buffer head (held ++ frame content) out

  straight-Achieves :
      tail + (length content + 4) ≤ length buffer → Achieves (copy_straight buffer tail content)
  unfolding copy_straight
  straight-Achieves fits =
      let l = length-frame content in
      let p = IsRing-Place (frame content) ring (omega (arith, l)) (omega (arith, l)) in
      let t : u32 (tail + (length content + 4)) ≡ tail + length (frame content) =
        omega (arith, l) in
      let e : copy_straight buffer tail content
          ≡ some (p.before ++ (frame content ++ p.after), u32 (tail + (length content + 4))) =
        ap (λ b. copy_straight b tail content) p.parts
        ∙ store_two (λ b. some (b, u32 (tail + (length content + 4)))) p.before p.old p.after
            (bytes32 (length content)) content tail (tail + 4) p.at
            (omega (arith, length-bytes32 (length content)))
            (omega (arith, l, p.same, length-bytes32 (length content))) in
      (
        (p.before ++ (frame content ++ p.after), u32 (tail + (length content + 4))),
        e,
        record {
          ring = rw t p.ring;
          same = omega (
            arith,
            len_eq p.parts,
            length_three p.before p.old p.after,
            length_three p.before (frame content) p.after,
            p.same,
          );
        },
      )

  -- The ring that two pieces of the frame leave, the second at the front of the buffer.
  Around-Copied :
      (p : Around buffer head tail held (frame content)) (x z : Bytes) (at : ℕ)
      → frame content ≡ x ++ z
      → length x ≡ length p.back
      → at ≡ length z
      → Copied buffer head (held ++ frame content) (z ++ (p.kept ++ x), at)
  Around-Copied p x z at e lx la =
      let l = len_eq p.parts ∙ length_three p.front p.kept p.back in
      let lz : length (frame content) ≡ length x + length z = len_eq e ∙ length-append x z in
      let m = IsRing-Measures (p.ring x z e lx) in
      let total = length_three z p.kept x in
      record {
        ring =
            rw (reset_inside (length buffer) at (omega (arith, m.tail_in, total, p.same)))
              (rw la (p.ring x z e lx));
        same = omega (arith, l, lz, total, p.same);
      }

  split_content-Achieves :
      length buffer < tail + (length content + 4)
      → tail + 4 ≤ length buffer
      → Achieves (copy_split_content buffer (length buffer) tail content)
  unfolding copy_split_content
  split_content-Achieves over fits =
      let l = length-frame content in
      let p = IsRing-Around (frame content) ring (omega (arith, l)) (omega (arith, l)) in
      let total = len_eq p.parts ∙ length_three p.front p.kept p.back in
      let at = sub32 (u32 (tail + length content + 4)) (length buffer) in
      let n : ℕ = sub32 (sub32 (length buffer) tail) 4 in
      let en : n ≡ length buffer - tail - 4 = omega (arith, p.at, total) in
      let x = bytes32 (length content) in
      let y = take n content in
      let z = drop n content in
      let lx = length-bytes32 (length content) in
      let ly : length y ≡ n = omega (arith, length-take n content) in
      let lz : length z ≡ length content - n = length-drop n content in
      (
        (z ++ (p.kept ++ (x ++ y)), at),
        ap (λ b. copy_split_content b (length buffer) tail content) p.parts
            ∙ store_split_content (λ b. some (b, at)) p.front p.kept p.back x y z tail (tail + 4)
                p.at (omega (arith, lx)) (omega (arith, lx, ly, p.at, total))
                (omega (arith, lz, l, p.same, p.at, total)),
        Around-Copied p (x ++ y) z at
            (ap (λ c. x ++ c) (sym (take-append-drop n content)) ∙ sym (append_assoc x y z))
            (omega (arith, length-append x y, lx, ly, p.at, total))
            (omega (arith, lz, p.at, total)),
      )

  split_length-Achieves :
      tail < length buffer
      → length buffer < tail + 4
      → Achieves (copy_split_length buffer (length buffer) tail content)
  unfolding copy_split_length
  split_length-Achieves inside over =
      let l = length-frame content in
      let p = IsRing-Around (frame content) ring (omega (arith, l)) (omega (arith, l)) in
      let total = len_eq p.parts ∙ length_three p.front p.kept p.back in
      let n : ℕ = sub32 (length buffer) tail in
      let en : n ≡ length buffer - tail = omega (arith, p.at, total) in
      let at = u32 (sub32 4 n + length content) in
      let w = bytes32 (length content) in
      let x = take n w in
      let y = drop n w in
      let lw = length-bytes32 (length content) in
      let lx : length x ≡ n = omega (arith, length-take n w) in
      let ly : length y ≡ 4 - n = omega (arith, length-drop n w) in
      (
        ((y ++ content) ++ (p.kept ++ x), at),
        ap (λ b. copy_split_length b (length buffer) tail content) p.parts
            ∙ store_split_length (λ b. some (b, at)) p.front p.kept p.back x y content tail
                (sub32 4 n) p.at (omega (arith, ly)) (omega (arith, lx, p.at, total))
                (omega (arith, ly, l, p.same, p.at, total)),
        Around-Copied p x (y ++ content) at
            (ap (λ c. c ++ content) (sym (take-append-drop n w)) ∙ append_assoc x y content)
            (omega (arith, lx, p.at, total))
            (omega (arith, length-append y content, ly, p.at, total)),
      )

  -- With room for the message, one of the three ways copies it.
  pub copy_in_lem :
      (out : Bytes × ℕ) × (copy_in buffer (length buffer) tail content ≡ some out)
      × Copied buffer head (held ++ frame content) out
  unfolding copy_in
  copy_in_lem =
      let m = IsRing-Measures ring in
      let total = u32 (length content + size_word) in
      let back = sub32 (length buffer) tail in
      let et : total ≡ length content + 4 = omega arith in
      let eb : back ≡ length buffer - tail = omega (arith, m.tail_in) in
      elim (Bool-cases (leb total back)) [
        | inl h ↦ rw h (straight-Achieves (omega (arith, leb→le total back h, m.tail_in)))
        | inr h ↦ elim (Bool-cases (leb size_word back)) [
          | inl k ↦
              rw (h, k)
                (split_content-Achieves (ground (arith, m.tail_in))
                  (omega (arith, leb→le size_word back k, m.tail_in)))
          | inr k ↦ rw (h, k) (split_length-Achieves m.tail_in (ground (arith, m.tail_in)))
        ]
      ]
