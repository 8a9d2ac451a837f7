-- ===== src/NetCheck/Framing.antt =====
-- The length of a packet that begins with it.
use common_cc.Prelude.{
  ℕ, suc, ◌+◌, ◌≤◌, ◌<◌, ◌≡◌, ◌*◌, refl, [], ◌∷◌, ◌++◌, Bytes, length, length-append, take, ltb,
  arith, Bool-cases, inl, inr,
}
use common_cc.Prelude.Int.{pos, negsuc}
use common_cc.Prelude.Word.{word}
use common_cc.NetCheck.{pkt_max_len, ntohl, net_complete_longconn}

take_4 : (s t : Bytes) → 4 ≤ length s → take 4 (s ++ t) ≡ take 4 s
take_4 [] t h = absurd (omega arith)
take_4 (a ∷ []) t h = absurd (omega arith)
take_4 (a ∷ b ∷ []) t h = absurd (omega arith)
take_4 (a ∷ b ∷ c ∷ []) t h = absurd (omega arith)
take_4 (a ∷ b ∷ c ∷ d ∷ s) t h = refl

-- A length above 0 that `net_complete_longconn` answers is neither above the bytes that are there nor
-- above the limit, and stays the same whatever bytes follow.
pub longconn_length :
    (s more : Bytes) (n : ℕ)
    → net_complete_longconn s ≡ pos (suc n)
    → (suc n ≤ length s) × (suc n ≤ pkt_max_len) × (net_complete_longconn (s ++ more) ≡ pos (suc n))
unfolding net_complete_longconn
longconn_length s more n h = elim (Bool-cases (ltb (length s) 4)) [
  | inl e ↦ absurd (cc (rw e at h))
  | inr e ↦
      let long : 4 ≤ length s = ground (arith, e) in
      let same : take 4 (s ++ more) ≡ take 4 s = take_4 s more long in
      let size = length-append s more in rw same (ground (arith, h, size))
]

-- Only a length above the limit is refused, whatever bytes follow.
longconn_refused :
    (s more : Bytes)
    → net_complete_longconn s ≡ negsuc 0
    → net_complete_longconn (s ++ more) ≡ negsuc 0
unfolding net_complete_longconn
longconn_refused s more h = elim (Bool-cases (ltb (length s) 4)) [
  | inl e ↦ absurd (cc (rw e at h))
  | inr e ↦
      let long : 4 ≤ length s = ground (arith, e) in
      let same : take 4 (s ++ more) ≡ take 4 s = take_4 s more long in
      let size = length-append s more in rw same (ground (arith, h, size))
]

-- Four bytes that are the length of a packet in network order, and then its content: where the
-- length is not above the limit, it is the answer, whatever bytes follow.
longconn_packet :
    (a b c d : ℕ) (body more : Bytes)
    → a < 256
    → b < 256
    → c < 256
    → d < 256
    → a * 16777216 + b * 65536 + c * 256 + d ≡ length body + 4
    → length body + 4 ≤ pkt_max_len
    → net_complete_longconn ((a ∷ b ∷ c ∷ d ∷ body) ++ more) ≡ pos (length body + 4)
unfolding net_complete_longconn ntohl word
longconn_packet a b c d body more h i j k l m =
    let size = length-append body more in ground (arith, size)

-- A header of four zero bytes asks for more bytes for ever.
longconn_stuck : (more : Bytes) → net_complete_longconn (0 ∷ 0 ∷ 0 ∷ 0 ∷ more) ≡ pos 0
unfolding net_complete_longconn ntohl word
longconn_stuck more = ground arith
