-- ===== src/NetQueue/CopyOut.antt =====
-- `DeQueue` reads the length of the oldest message, and its bytes.
use common_cc.Prelude.{
  ℕ, ◌+◌, ◌≤◌, ◌<◌, ◌^◌, some, [], ◌++◌, ◌≡◌, refl, sym, ap, ◌∙◌, inl, inr, arith, Bytes, length,
  length-append, append_assoc, append-nil, Bool-cases, leb, leb→le, le→leb,
}
use native.Mathlib.Decide.{dec_le}
use common_cc.Prelude.Memory.{load, load_lem}
use common_cc.Prelude.Word.{u32, sub32, bytes32, word-bytes32}
use common_cc.NetQueue.{reset_at, size_word, read_length, copy_out}
use common_cc.NetQueue.Layout.{IsRing, len_eq, length_three, IsRing-Measures}
use common_cc.NetQueue.Write.{reset_inside, reset_end}
use common_cc.NetQueue.CopyIn.{length-bytes32}
use common_cc.NetQueue.Read.{Ahead, Over, IsRing-Ahead, IsRing-Over}

module _ {buffer : Bytes} {head tail : ℕ} {bytes rest : Bytes} where
  load-Ahead :
      (n : ℕ)
      → n ≡ length bytes
      → Ahead buffer head tail bytes rest
      → load buffer head n ≡ some bytes
  load-Ahead n e p = rw (p.parts) (load_lem p.before bytes p.after head n p.at e)

  load_back :
      (n : ℕ) (p : Over buffer head tail bytes rest)
      → n ≡ length p.back
      → load buffer head n ≡ some p.back
  load_back n p e =
      ap (λ b. load b head n)
        (p.parts
          ∙ ap (λ b. p.front ++ (p.kept ++ b)) (sym (append-nil p.back))
          ∙ sym (append_assoc p.front p.kept (p.back ++ [])))
      ∙ load_lem (p.front ++ p.kept) p.back [] head n
          (omega (arith, p.at, length-append p.front p.kept)) e

  load_front :
      (n : ℕ) (p : Over buffer head tail bytes rest)
      → n ≡ length p.front
      → load buffer 0 n ≡ some p.front
  load_front n p e =
      ap (λ b. load b 0 n) p.parts ∙ load_lem [] p.front (p.kept ++ p.back) 0 n refl e

load_none : (buffer : Bytes) → load buffer 0 0 ≡ some []
unfolding load
load_none buffer = ground arith

module _ {buffer : Bytes} {head tail : ℕ} (n : ℕ) (rest : Bytes) (small : length buffer < 2 ^ 32)
    (fits : n < 2 ^ 32) (ring : IsRing buffer head tail (bytes32 n ++ rest)) where
  -- The word ends with the buffer: nothing of it is at the front.
  read_at_end :
      head + 4 ≡ length buffer
      → (next : ℕ) × (read_length buffer (length buffer) head ≡ some (n, next))
        × IsRing buffer next tail rest
  unfolding read_length
  read_at_end h =
      let l = length-bytes32 n in
      let p = IsRing-Ahead (bytes32 n) rest ring (omega (arith, l)) in
      let n1 : ℕ = sub32 (length buffer) head in
      let n2 : ℕ = sub32 size_word n1 in
      let e2 : n2 ≡ 0 = omega arith in
      let en : reset_at (length buffer) (head + length (bytes32 n)) ≡ 0 =
        reset_end (length buffer) (head + length (bytes32 n)) (omega (arith, l)) in
      rw
        (
          le→leb (length buffer) (head + size_word) (omega arith),
          load-Ahead n1 (omega (arith, l)) p,
          e2,
          load_none buffer,
          append-nil (bytes32 n),
          word-bytes32 n fits,
        )
        (0, refl, rw en at p.ring)

  -- The word goes round the end.
  read_past_end :
      length buffer < head + 4
      → (next : ℕ) × (read_length buffer (length buffer) head ≡ some (n, next))
        × IsRing buffer next tail rest
  unfolding read_length
  read_past_end h =
      let l = length-bytes32 n in
      let m = IsRing-Measures ring in
      let p = IsRing-Over (bytes32 n) rest ring (omega (arith, l)) in
      let lp = len_eq p.same ∙ length-append p.back p.front in
      let total = len_eq p.parts ∙ length_three p.front p.kept p.back in
      let n1 : ℕ = sub32 (length buffer) head in
      let n2 : ℕ = sub32 size_word n1 in
      let e1 : n1 ≡ length p.back = omega (arith, total, p.at) in
      let e2 : n2 ≡ length p.front = omega (arith, lp, l) in
      rw
        (
          le→leb (length buffer) (head + size_word) (omega arith),
          load_back n1 p e1,
          load_front n2 p e2,
          ← p.same,
          word-bytes32 n fits,
        )
        (n2, refl, rw (← e2) at p.ring)

  -- The length is read, and the index behind it is where the rest begins.
  pub read_length_lem :
      (next : ℕ) × (read_length buffer (length buffer) head ≡ some (n, next))
      × IsRing buffer next tail rest
  unfolding read_length
  read_length_lem =
      let m = IsRing-Measures ring in
      let l = length-bytes32 n in
      elim (Bool-cases (leb (length buffer) (head + size_word))) [
        | inr h ↦
            let short : head + 4 < length buffer = ground arith in
            let p = IsRing-Ahead (bytes32 n) rest ring (omega (arith, l)) in
            let en : reset_at (length buffer) (head + length (bytes32 n)) ≡ u32 (head + 4) =
              reset_inside (length buffer) (head + length (bytes32 n)) (omega (arith, l))
              ∙ omega (arith, l) in
            rw (h, load-Ahead size_word (sym l) p, word-bytes32 n fits)
              (u32 (head + size_word), refl, rw en at p.ring)
        | inl h ↦ elim (dec_le (head + 4) (length buffer)) [
          | yes k ↦ read_at_end (omega (arith, leb→le (length buffer) (head + size_word) h))
          | no k ↦ read_past_end (omega arith)
        ]
      ]

module _ {buffer : Bytes} {head tail : ℕ} (content rest : Bytes) (small : length buffer ≤ 2 ^ 31)
    (ring : IsRing buffer head tail (content ++ rest)) where
  -- The message is read, and the index behind it, put back at the end, is where the rest begins.
  pub copy_out_lem :
      (head' : ℕ) × (copy_out buffer (length buffer) head (length content) ≡ some (content, head'))
      × IsRing buffer (reset_at (length buffer) head') tail rest
  unfolding copy_out
  copy_out_lem =
      let m = IsRing-Measures ring in
      let lc = length-append content rest in
      let e : u32 (head + length content) ≡ head + length content =
        omega (arith, m.head_in, m.held_lt, lc) in
      elim (Bool-cases (leb (u32 (head + length content)) (length buffer))) [
        | inl h ↦
            let p =
              IsRing-Ahead content rest ring
                (omega (arith, e, leb→le (u32 (head + length content)) (length buffer) h)) in
            rw (h, load-Ahead (length content) refl p)
              (u32 (head + length content), refl, rw (sym e) at p.ring)
        | inr h ↦
            let p = IsRing-Over content rest ring (ground (arith, e)) in
            let lp = len_eq p.same ∙ length-append p.back p.front in
            let total = len_eq p.parts ∙ length_three p.front p.kept p.back in
            let n1 : ℕ = sub32 (length buffer) head in
            let n2 : ℕ = sub32 (length content) n1 in
            let e1 : n1 ≡ length p.back = omega (arith, total, p.at) in
            let e2 : n2 ≡ length p.front = omega (arith, lp) in
            let inside : reset_at (length buffer) (length p.front) ≡ length p.front =
              reset_inside (length buffer) (length p.front)
                (omega (arith, total, p.at, m.head_in)) in
            rw (h, load_back n1 p e1, load_front n2 p e2, ← p.same)
              (n2, refl, rw (e2, inside) p.ring)
      ]
