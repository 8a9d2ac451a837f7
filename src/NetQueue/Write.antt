-- ===== src/NetQueue/Write.antt =====
-- Appending bytes to a ring buffer: at its tail, or round its end (`EnQueue`).
use common_cc.Prelude.{
  ℕ, ◌+◌, ◌-◌, ◌≤◌, ◌<◌, [], ◌∷◌, ◌++◌, ◌≡◌, refl, sym, ap, ◌∙◌, arith, Bytes, length,
  length-append, append_assoc, append-nil,
}
use common_cc.NetQueue.{reset_at}
use common_cc.NetQueue.Layout.{IsRing, straight, wrapped, cut, length_three, len_eq}

-- The place for `bytes` right behind the tail: the buffer is `before ++ old ++ after`, and with
-- `bytes` for `old` the ring holds them too.
pub record Place (buffer : Bytes) (head tail : ℕ) (held bytes : Bytes) : Type 0 where
  pub before : Bytes
  pub old : Bytes
  pub after : Bytes
  pub parts : buffer ≡ before ++ (old ++ after)
  pub at : tail ≡ length before
  pub same : length old ≡ length bytes
  pub ring :
      IsRing
        (before ++ (bytes ++ after))
        head
        (reset_at (length buffer) (tail + length bytes))
        (held ++ bytes)

-- An index inside the buffer stays, and one at its end goes back.
pub reset_inside : (len i : ℕ) → i < len → reset_at len i ≡ i
reset_inside len i h = ground arith

pub reset_end : (len i : ℕ) → len ≤ i → reset_at len i ≡ 0
reset_end len i h = ground arith

-- The ring after an append in one piece.
IsRing-straight :
    (head tail len : ℕ) (a held bytes c : Bytes)
    → len ≡ length a + length held + length bytes + length c
    → head ≡ length a
    → tail ≡ length a + length held
    → tail < len
    → length held + length bytes < len
    → IsRing ((a ++ held) ++ (bytes ++ c)) head (reset_at len (tail + length bytes)) (held ++ bytes)
IsRing-straight head tail len a held bytes [] l p q n room =
    rw (reset_end len (tail + length bytes) (omega arith)) (
      wrapped (held ++ bytes) a [] (rw (append-nil, append_assoc)) refl (omega arith) (omega arith)
        (omega (arith, length-append held bytes)) (sym (append-nil (held ++ bytes))))
IsRing-straight head tail len a held bytes (x ∷ c) l p q n room =
    rw (reset_inside len (tail + length bytes) (omega arith)) (
      straight a (x ∷ c) (simp append_assoc) p (omega (arith, length-append held bytes))
        (omega arith))

-- Bytes that end before the buffer does.
Place-straight :
    {buffer : Bytes} {head tail : ℕ} {held : Bytes} (bytes : Bytes) (before after : Bytes)
    → buffer ≡ before ++ (held ++ after)
    → head ≡ length before
    → tail ≡ length before + length held
    → tail + length bytes ≤ length buffer
    → length held + length bytes < length buffer
    → 0 < length after
    → Place buffer head tail held bytes
Place-straight {buffer} {head} {tail} {held} bytes a b e p q fits room n =
    let l : length buffer ≡ length a + length held + length b = len_eq e ∙ length_three a held b in
    let (old, c, eb, lo) = cut (length bytes) b (omega arith) in
    let lb : length b ≡ length old + length c = len_eq eb ∙ length-append old c in
    record {
      before = a ++ held;
      old = old;
      after = c;
      parts = e ∙ (rw (eb, append_assoc));
      at = omega (arith, length-append a held);
      same = lo;
      ring =
          IsRing-straight head tail (length buffer) a held bytes c (omega arith) p q (omega arith)
            room;
    }

pub IsRing-Place :
    {buffer : Bytes} {head tail : ℕ} {held : Bytes} (bytes : Bytes)
    → IsRing buffer head tail held
    → tail + length bytes ≤ length buffer
    → length held + length bytes < length buffer
    → Place buffer head tail held bytes
IsRing-Place {buffer} {head} {tail} {held} bytes (straight a b e p q n) fits room =
    Place-straight bytes a b e p q fits room n
IsRing-Place {buffer} {head} {tail} {held} bytes (wrapped old gap new e p q n m w) fits room =
    let l : length buffer ≡ length new + length gap + length old =
      len_eq e ∙ length_three new gap old in
    let k : length held ≡ length old + length new = len_eq w ∙ length-append old new in
    let (g, gap', eg, lg) = cut (length bytes) gap (omega arith) in
    let lgap : length gap ≡ length g + length gap' = len_eq eg ∙ length-append g gap' in
    record {
      before = new;
      old = g;
      after = gap' ++ old;
      parts = e ∙ (rw (eg, append_assoc));
      at = p;
      same = lg;
      ring =
          wrapped old gap' (new ++ bytes) (sym (append_assoc new bytes (gap' ++ old)))
            (rw (reset_inside (length buffer) (tail + length bytes) (omega arith))
              (omega (arith, length-append new bytes)))
            (omega (arith, length-append new bytes)) (omega arith) m (rw (w, append_assoc));
    }

-- The place for bytes that go round the end: the back of the buffer, then its front.
pub record Around (buffer : Bytes) (head tail : ℕ) (held bytes : Bytes) : Type 0 where
  pub front : Bytes
  pub kept : Bytes
  pub back : Bytes
  pub parts : buffer ≡ front ++ (kept ++ back)
  pub at : tail ≡ length front + length kept
  pub same : length front + length back ≡ length bytes
  pub ring :
      (x z : Bytes)
      → bytes ≡ x ++ z
      → length x ≡ length back
      → IsRing (z ++ (kept ++ x)) head (length z) (held ++ bytes)

pub IsRing-Around :
    {buffer : Bytes} {head tail : ℕ} {held : Bytes} (bytes : Bytes)
    → IsRing buffer head tail held
    → length buffer < tail + length bytes
    → length held + length bytes < length buffer
    → Around buffer head tail held bytes
IsRing-Around {buffer} {head} {tail} {held} bytes (wrapped old gap new e p q n m w) over room =
    absurd (omega (arith, len_eq e ∙ length_three new gap old, len_eq w ∙ length-append old new))
IsRing-Around {buffer} {head} {tail} {held} bytes (straight a b e p q n) over room =
    let l : length buffer ≡ length a + length held + length b = len_eq e ∙ length_three a held b in
    let (z0, gap, ea, lz) = cut (length bytes - length b) a (omega arith) in
    let la : length a ≡ length z0 + length gap = len_eq ea ∙ length-append z0 gap in
    record {
      front = z0;
      kept = gap ++ held;
      back = b;
      parts = e ∙ ap (λ (l : Bytes). l ++ (held ++ b)) ea ∙ (simp append_assoc);
      at = omega (arith, length-append gap held);
      same = omega arith;
      ring = λ x z eb lx.
          let lb : length bytes ≡ length x + length z = len_eq eb ∙ length-append x z in
          wrapped (held ++ x) gap z (simp append_assoc) refl (omega arith) (omega arith)
            (omega (arith, length-append held x))
            (ap (λ (l : Bytes). held ++ l) eb ∙ sym (append_assoc held x z));
    }
