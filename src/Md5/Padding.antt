-- ===== src/Md5/Padding.antt =====
-- `MD5::finalize` and the whole digest, against the padding of RFC 1321.
use common_cc.Prelude.{
  ℕ, suc, ◌-◌, ◌*◌, ◌/◌, ◌%◌, ◌^◌, ◌<◌, ◌≡◌, ◌∙◌, refl, ap, sym, true, false, Option, some, List,
  [], ◌∷◌, ◌++◌, All, length, take, replicate, length-append, length-replicate, take-replicate,
  append_assoc, append-nil, ltb, if◌then◌else◌, ◌>>=◌, Bytes, arith,
}
use common_cc.Prelude.Word.{bytes32, word}
use common_cc.Md5.{
  Md5, init, padding, close, finalize, update, encode_state, hexdigest, of_text, digest_hex,
}
use common_cc.Prelude.Blocks.{absorb}
use common_cc.Md5.Stream.{Absorbed, init-Absorbed, update-Absorbed}
use common_cc.Md5.Transform.{State, transform}
use common_cc.Md5.Rfc.{
  rfc_start, rfc_block, rfc_output, rfc_hex, hex-rfc_hex, rfc_output-All, absorb-rfc_block,
}

-- A number in 64 bits, the least significant byte first.
unfoldable pub bytes64 : ℕ → Bytes
bytes64 n = bytes32 (n % 2 ^ 32) ++ bytes32 (n / 2 ^ 32 % 2 ^ 32)

-- The padding of the RFC: a byte 0x80, as few zero bytes as lead to 56 modulo 64, and the number of
-- bits.
unfoldable pub padded : Bytes → Bytes
padded msg =
    msg ++ ((0x80 ∷ replicate ((119 - length msg % 64) % 64) 0) ++ bytes64 (length msg * 8))

-- The digest of the RFC: the work on all blocks of the padded message.
unfoldable pub rfc_digest : Bytes → Bytes
rfc_digest msg = rfc_output (absorb rfc_block (length (padded msg) / 64) rfc_start (padded msg))

-- What the code computes on them.
unfoldable pub code_digest : State → Bytes → Bytes
code_digest start msg =
    encode_state (absorb transform (length (padded msg) / 64) start (padded msg))

code_digest-rfc_digest :
    (buffer digest msg : Bytes) → code_digest (init buffer digest).state msg ≡ rfc_digest msg
unfolding code_digest rfc_digest encode_state init word
code_digest-rfc_digest buffer digest msg =
    ap rfc_output
      (absorb-rfc_block (length (padded msg) / 64) (init buffer digest).state (padded msg))

length-bytes32 : (n : ℕ) → length (bytes32 n) ≡ 4
unfolding bytes32
length-bytes32 n = refl

-- A padded message is made of whole blocks.
pub length-padded : (msg : Bytes) → length (padded msg) % 64 ≡ 0
unfolding padded bytes64
length-padded msg =
    let zeros : ℕ = (119 - length msg % 64) % 64 in
    let bits : ℕ = length msg * 8 in
    let tail : Bytes = bytes32 (bits % 2 ^ 32) ++ bytes32 (bits / 2 ^ 32 % 2 ^ 32) in
    omega (
      arith,
      length-append msg ((0x80 ∷ replicate zeros 0) ++ tail),
      length-append (0x80 ∷ replicate zeros 0) tail,
      length-replicate {A = ℕ} zeros 0,
      length-append (bytes32 (bits % 2 ^ 32)) (bytes32 (bits / 2 ^ 32 % 2 ^ 32)),
      length-bytes32 (bits % 2 ^ 32),
      length-bytes32 (bits / 2 ^ 32 % 2 ^ 32),
    )

finalize-close : (m : Md5) → m.finalized ≡ false → finalize m ≡ close m
unfolding finalize
finalize-close m e = ground (arith, e)

-- `finalize` after the bytes of a message gives the digest of the work on the blocks.
pub finalize_lem :
    (start : State) (m : Md5) (msg : Bytes)
    → Absorbed start m msg
    → (m' : Md5) × (finalize m ≡ some m')
      × (m'.digest ≡ code_digest start msg)
      × (m'.finalized ≡ true)
unfolding close code_digest
finalize_lem start m msg w =
    let index : ℕ = m.count_lo / 8 % 64 in
    let index_is : index ≡ length msg % 64 = omega (arith, w.lo_is) in
    let zeros : ℕ = (119 - length msg % 64) % 64 in
    let pad_len : ℕ = if ltb index 56 then 56 - index else 120 - index in
    let pad_is : pad_len ≡ suc zeros = ground (arith, index_is) in
    let pad : Bytes = 0x80 ∷ replicate zeros 0 in
    let taken : take pad_len padding ≡ pad =
      ap (λ k. take k padding) pad_is
      ∙ ap (λ z. 0x80 ∷ z) (take-replicate zeros 63 0 (omega arith)) in
    let bits : Bytes = bytes32 m.count_lo ++ bytes32 m.count_hi in
    let bits_size = length-append (bytes32 m.count_lo) (bytes32 m.count_hi) in
    let bits_is : bits ≡ bytes64 (length msg * 8) = unfold bytes64 in rw (w.lo_is, w.hi_is) in
    let (m1, run1, w1) =
      update-Absorbed start m msg pad w (omega (arith, length-replicate {A = ℕ} zeros 0)) in
    let (m2, run2, w2) =
      update-Absorbed start m1 (msg ++ pad) bits w1
        (omega (arith, bits_size, length-bytes32 m.count_lo, length-bytes32 m.count_hi)) in
    let whole : (msg ++ pad) ++ bits ≡ padded msg =
      unfold padded in append_assoc msg pad bits ∙ ap (λ z. msg ++ (pad ++ z)) bits_is in
    let even : length (padded msg) % 64 ≡ 0 = length-padded msg in
    rw (finalize-close m w.open_is, close, taken, run1, run2)
      (
        record m2 {
          digest = encode_state m2.state;
          buffer = replicate 64 0;
          count_lo = 0;
          count_hi = 0;
          finalized = true;
        },
        refl,
        ap encode_state (w2.state_is ∙ ap (λ z. absorb transform (length z / 64) start z) whole),
        refl,
      )

-- Pieces of a message one after the other.
unfoldable pub updates : Md5 → List Bytes → Option Md5
updates m [] = some m
updates m (x ∷ xs) = do m' ← update m x; updates m' xs

abbrev pub concat : List Bytes → Bytes
concat [] = []
concat (x ∷ xs) = x ++ concat xs

updates-Absorbed :
    (start : State) (m : Md5) (msg : Bytes) (xs : List Bytes)
    → Absorbed start m msg
    → All (λ x. length x < 2 ^ 32 - 64) xs
    → (m' : Md5) × (updates m xs ≡ some m') × Absorbed start m' (msg ++ concat xs)
unfolding updates
updates-Absorbed start m msg [] w h =
    let same : msg ≡ msg ++ [] = sym (append-nil msg) in (m, refl, rw (← same) w)
updates-Absorbed start m msg (x ∷ xs) w h =
    let (m1, run, w1) = update-Absorbed start m msg x w h.0 in
    let (m', more, w') = updates-Absorbed start m1 (msg ++ x) xs w1 h.1 in
    let joined : (msg ++ x) ++ concat xs ≡ msg ++ (x ++ concat xs) =
      append_assoc msg x (concat xs) in
    (m', rw run more, rw (← joined) w')

-- However a message is cut into pieces, each shorter than 2 ^ 32 - 64, the digest that `update` of
-- the pieces and `finalize` leave is that of RFC 1321 for the whole message, and no copy leaves the
-- buffer of 64 bytes or the piece.
pub updates_lem :
    (buffer digest : Bytes) (xs : List Bytes)
    → length buffer ≡ 64
    → All (λ x. length x < 2 ^ 32 - 64) xs
    → (m' : Md5) × ((updates (init buffer digest) xs >>= finalize) ≡ some m')
      × (m'.digest ≡ rfc_digest (concat xs))
      × (m'.finalized ≡ true)
updates_lem buffer digest xs h k =
    let start : State = (init buffer digest).state in
    let (m, run, w) =
      updates-Absorbed start (init buffer digest) [] xs (init-Absorbed buffer digest h) k in
    let (m', fin, is, done) = finalize_lem start m (concat xs) w in
    (m', rw run fin, is ∙ code_digest-rfc_digest buffer digest (concat xs), done)

-- `DigestHex` of a text shorter than 2 ^ 32 - 64 is the digest of RFC 1321 in hexadecimal digits.
pub digest_hex_lem :
    (buffer digest text : Bytes)
    → length buffer ≡ 64
    → length text < 2 ^ 32 - 64
    → digest_hex buffer digest text ≡ some (rfc_hex (rfc_digest text))
unfolding digest_hex of_text hexdigest
digest_hex_lem buffer digest text h k =
    let start : State = (init buffer digest).state in
    let (m, run, w) =
      update-Absorbed start (init buffer digest) [] text (init-Absorbed buffer digest h) k in
    let (m', fin, is, done) = finalize_lem start m text w in
    rw
      (
        run,
        fin,
        done,
        is,
        code_digest-rfc_digest buffer digest text,
        hex-rfc_hex (rfc_digest text) (unfold rfc_digest in rfc_output-All _),
      )
      refl
