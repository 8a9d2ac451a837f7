-- ===== src/Md5/Stream.antt =====
-- `MD5::update` over any cut of the message: what the object holds after bytes that came in pieces.
use common_cc.Prelude.{
  ℕ, ◌+◌, ◌-◌, ◌*◌, ◌/◌, ◌%◌, ◌^◌, ◌<◌, ◌≡◌, ◌∙◌, refl, ap, sym, false, some, [], ◌++◌, length,
  take, drop, length-append, length-drop, drop-drop, drop-append_le, Bytes, arith,
}
use common_cc.Md5.{Md5, init, counted, update}
use common_cc.Md5.Transform.{State, transform}
use common_cc.Prelude.Blocks.{absorb, absorb-append, absorb-add}
use common_cc.Md5.Blocks.{fill_lem}

-- What the object holds after the bytes of a message: the work on its whole blocks, the bytes behind
-- them at the front of the buffer, and the number of bits in 64 bits.
pub record Absorbed (start : State) (m : Md5) (msg : Bytes) : Type 0 where
  pub state_is : m.state ≡ absorb transform (length msg / 64) start msg
  pub tail_is : take (length msg % 64) m.buffer ≡ drop (length msg / 64 * 64) msg
  pub size : length m.buffer ≡ 64
  pub lo_is : m.count_lo ≡ length msg * 8 % 2 ^ 32
  pub hi_is : m.count_hi ≡ length msg * 8 / 2 ^ 32 % 2 ^ 32
  pub open_is : m.finalized ≡ false

pub init-Absorbed :
    (buffer digest : Bytes)
    → length buffer ≡ 64
    → Absorbed (init buffer digest).state (init buffer digest) []
unfolding init absorb
init-Absorbed buffer digest h = record {
  state_is = refl;
  tail_is = refl;
  size = h;
  lo_is = refl;
  hi_is = refl;
  open_is = refl;
}

-- The count of bits, when bytes come behind a message.
counted-lo :
    (L len : ℕ) (m : Md5)
    → m.count_lo ≡ L * 8 % 2 ^ 32
    → (counted len m).count_lo ≡ (L + len) * 8 % 2 ^ 32
unfolding counted
counted-lo L len m h = omega arith

counted-hi :
    (L len : ℕ) (m : Md5)
    → m.count_lo ≡ L * 8 % 2 ^ 32
    → m.count_hi ≡ L * 8 / 2 ^ 32 % 2 ^ 32
    → len < 2 ^ 32
    → (counted len m).count_hi ≡ (L + len) * 8 / 2 ^ 32 % 2 ^ 32
unfolding counted
counted-hi L len m h k l = ground arith

-- `update` takes the object from any message to the message with the new bytes behind it, and copies
-- inside the buffer only.
pub update-Absorbed :
    (start : State) (m : Md5) (msg x : Bytes)
    → Absorbed start m msg
    → length x < 2 ^ 32 - 64
    → (m' : Md5) × (update m x ≡ some m') × Absorbed start m' (msg ++ x)
unfolding update counted
update-Absorbed start m msg x w l =
    let n : ℕ = length msg / 64 in
    let tail : Bytes = drop (n * 64) msg in
    let y : Bytes = tail ++ x in
    let tail_size = length-drop (n * 64) msg in
    let y_size = length-append tail x in
    let size = length-append msg x in
    let index : ℕ = m.count_lo / 8 % 64 in
    let index_is : index ≡ length msg % 64 = omega (arith, w.lo_is) in
    let joined : take index m.buffer ++ x ≡ y =
      ap (λ k. take k m.buffer ++ x) index_is ∙ ap (λ z. z ++ x) w.tail_is in
    let (m', run, f) = fill_lem index (counted (length x) m) x y (omega arith) w.size joined l in
    let behind : drop (n * 64) (msg ++ x) ≡ y = drop-append_le (n * 64) msg x (omega arith) in
    let blocks : length (msg ++ x) / 64 ≡ n + length y / 64 = omega arith in
    let waiting : length (msg ++ x) % 64 ≡ length y % 64 = omega arith in
    let off : n * 64 + length y / 64 * 64 ≡ length (msg ++ x) / 64 * 64 = omega arith in
    let before : absorb transform n start (msg ++ x) ≡ m.state =
      absorb-append transform n start msg x (omega arith) ∙ sym w.state_is in
    (
      m',
      run,
      record {
        state_is =
            f.state_is
            ∙ sym (
                absorb-add transform n (length y / 64) (length (msg ++ x) / 64) start (msg ++ x)
                  blocks
                ∙ ap (λ s. absorb transform (length y / 64) s (drop (n * 64) (msg ++ x))) before
                ∙ ap (λ z. absorb transform (length y / 64) m.state z) behind);
        tail_is =
            ap (λ k. take k m'.buffer) waiting
            ∙ f.tail_is
            ∙ ap (λ z. drop (length y / 64 * 64) z) (sym behind)
            ∙ drop-drop (length y / 64 * 64) (n * 64) (msg ++ x)
            ∙ ap (λ k. drop k (msg ++ x)) off;
        size = f.size;
        lo_is =
            f.same_lo
            ∙ counted-lo (length msg) (length x) m w.lo_is
            ∙ ap (λ k. k * 8 % 2 ^ 32) (sym size);
        hi_is =
            f.same_hi
            ∙ counted-hi (length msg) (length x) m w.lo_is w.hi_is (omega (arith, l))
            ∙ ap (λ k. k * 8 / 2 ^ 32 % 2 ^ 32) (sym size);
        open_is = f.same_finalized ∙ w.open_is;
      },
    )
