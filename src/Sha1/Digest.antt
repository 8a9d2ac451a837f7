-- ===== src/Sha1/Digest.antt =====
-- The digest of `SHA1`, against FIPS 180-1.
use common_cc.Prelude.{
  ℕ, zero, suc, ◌+◌, ◌-◌, ◌*◌, ◌/◌, ◌%◌, ◌^◌, ◌≤◌, ◌<◌, ◌≡◌, ◌≢◌, ◌∙◌, refl, ap, true, [], ◌∷◌,
  ◌++◌, All, All-drop, length, take, drop, get_or, get_or-append_ge, get_or-append_lt,
  get_or-replicate, length-take, length-drop, length-replicate, take-length, drop-drop, append-nil,
  ltb, leb, lt→ltb, some, ◌==◌, Bytes, arith, Bool-cases, inl, inr,
}
use common_cc.Prelude.Blocks.{absorb}
use common_cc.Sha1.{
  pad_message, Sha1, sha_init, sha_go, go_from, step_pos, c_text, process_message_block,
  add_data_len, load_block,
}
use common_cc.Sha1.Padding.{zeros, closed, last_block, big_endian64, finish, pad_message_lem}
use common_cc.Sha1.Process.{process}
use common_cc.Sha1.Padded.{
  padded, padded_twice, tail_of, length-tail_of, finish_short, finish_long, fips_length,
}
use common_cc.Sha1.Fips.{fips_start, fips_block, absorb-fips_block}

-- One round of the loop, on a whole block.
full_lem :
    (L : ℕ) (s : Sha1) (block : Bytes)
    → length block ≡ 64
    → s.length_low ≡ L * 8 % 2 ^ 32
    → s.length_high ≡ L * 8 / 2 ^ 32 % 2 ^ 32
    → let full : Sha1 =
        add_data_len 0 (process_message_block (add_data_len 64 (load_block block s))) in
      (full.h ≡ process s.h block)
      × (full.length_low ≡ (L + 64) * 8 % 2 ^ 32)
      × (full.length_high ≡ (L + 64) * 8 / 2 ^ 32 % 2 ^ 32)
unfolding add_data_len process_message_block load_block
full_lem L s block h low high =
    let no_room : 64 - length block ≡ 0 = omega arith in
    (
      ap (λ k. process s.h (block ++ zeros k)) no_room ∙ ap (λ z. process s.h z) (append-nil block),
      omega arith,
      ground arith,
    )

-- The loop of `SHA_GO` works on the whole blocks and then on the bytes behind them.
go_from_lem :
    (fuel L : ℕ) (s : Sha1) (input : Bytes)
    → length input < fuel
    → L + length input < 2 ^ 31 - 64
    → s.length_low ≡ L * 8 % 2 ^ 32
    → s.length_high ≡ L * 8 / 2 ^ 32 % 2 ^ 32
    → (r : Sha1) × (go_from fuel s L input ≡ some r)
      × (r.h
          ≡ finish
              (absorb process (length input / 64) s.h input)
              (drop (length input / 64 * 64) input)
              (L + length input))
unfolding go_from step_pos absorb
go_from_lem zero L s input h small low high = absurd (omega arith)
go_from_lem (suc fuel) L s input h small low high = elim (Bool-cases (leb 64 (length input))) [
  | inl e ↦
      let long : 64 ≤ length input = ground (arith, e) in
      let in_range : ltb (L + 64) (2 ^ 31) ≡ true = lt→ltb _ _ (omega arith) in
      let size = length-drop 64 input in
      let block : Bytes = take 64 input in
      let block_size : length block ≡ 64 = omega (arith, length-take 64 input) in
      let (hash, low', high') = full_lem L s block block_size low high in
      let full : Sha1 =
        add_data_len 0 (process_message_block (add_data_len 64 (load_block block s))) in
      let rest : Bytes = drop 64 input in
      let (r, run, ih) =
        go_from_lem fuel (L + 64) full rest (omega arith) (omega arith) low' high' in
      let one : suc (length rest / 64) ≡ length input / 64 = omega arith in
      let off : 64 + length rest / 64 * 64 ≡ length input / 64 * 64 = omega arith in
      let all : L + 64 + length rest ≡ L + length input = omega arith in
      (
        r,
        rw (e, in_range) run,
        rw (ih, hash, all, drop-drop (length rest / 64 * 64) 64 input, off)
            (ap
              (λ k.
                finish (absorb process k s.h input) (drop (length input / 64 * 64) input)
                  (L + length input))
              one),
      )
  | inr e ↦
      let short : length input < 64 = ground (arith, e) in
      let in_range : ltb (L + 64) (2 ^ 31) ≡ true = lt→ltb _ _ (omega arith) in
      let none_whole : length input / 64 ≡ 0 = omega arith in
      let last : Sha1 = pad_message (add_data_len (length input) (load_block input s)) in
      (last, rw (e, in_range) refl, rw none_whole (pad_message_lem L s input low high short))
]

sha_go-go_from :
    (s : Sha1) (input : Bytes)
    → length (c_text input) < 2 ^ 31 - 64
    → sha_go s input ≡ go_from (length (c_text input) + 1) (sha_init s) 0 (c_text input)
unfolding sha_go
sha_go-go_from s input h =
    let text : Bytes = c_text input in
    let whole : length text % 2 ^ 32 ≡ length text = omega arith in
    let in_range : ltb (length text) (2 ^ 31) ≡ true = lt→ltb _ _ (omega arith) in
    rw (whole, in_range, take-length text) refl

sha_go-finish :
    (s : Sha1) (input : Bytes)
    → length (c_text input) < 2 ^ 31 - 64
    → (r : Sha1) × (sha_go s input ≡ some r)
      × (r.h
          ≡ finish
              (absorb process (length (c_text input) / 64) (sha_init s).h (c_text input))
              (tail_of (c_text input))
              (length (c_text input)))
sha_go-finish s input h =
    let text : Bytes = c_text input in
    let all : 0 + length text ≡ length text = omega arith in
    let (r, run, is) =
      go_from_lem (length text + 1) 0 (sha_init s) text (omega arith) (omega arith)
        (unfold sha_init in refl) (unfold sha_init in refl) in
    (
      r,
      sha_go-go_from s input h ∙ run,
      is
          ∙ ap
              (λ k. finish (absorb process (length text / 64) (sha_init s).h text) (tail_of text) k)
              all,
    )

-- The work on blocks from the start is that of FIPS 180-1.
absorb-fips :
    (s : Sha1) (n : ℕ) (msg : Bytes)
    → absorb process n (sha_init s).h msg ≡ absorb fips_block n fips_start msg
unfolding sha_init
absorb-fips s n msg = absorb-fips_block n fips_start msg

-- Where at most 55 bytes of a text shorter than 2 ^ 31 - 64 stand behind its whole blocks, `SHA_GO`
-- leaves the five words that FIPS 180-1 has for the text.
pub sha_go_lem :
    (s : Sha1) (input : Bytes)
    → length (c_text input) < 2 ^ 31 - 64
    → length (c_text input) % 64 ≤ 55
    → (r : Sha1) × (sha_go s input ≡ some r)
      × (r.h
          ≡ absorb fips_block
              (length (padded (c_text input)) / 64)
              fips_start
              (padded (c_text input)))
sha_go_lem s input l h =
    let (r, run, is) = sha_go-finish s input l in
    (
      r,
      run,
      is
          ∙ finish_short (sha_init s).h (c_text input) h
          ∙ absorb-fips s (length (padded (c_text input)) / 64) (padded (c_text input)),
    )

c_text-All : (input : Bytes) → All (λ c. 0 < c) (c_text input)
unfolding c_text
c_text-All [] = tt
c_text-All (c ∷ s) = elim (Bool-cases (c == 0)) [
  | inl e ↦ rw e tt
  | inr e ↦ rw e (ground (arith, e), c_text-All s)
]

first_pos : (xs : Bytes) → All (λ c. 0 < c) xs → 0 < length xs → 0 < get_or xs 0 0
first_pos [] h l = absurd (omega arith)
first_pos (c ∷ xs) h l = h.0

-- The byte behind the closed block: a zero by the standard, the first of the bytes left in the code.
padded_byte :
    (msg : Bytes)
    → 55 < length msg % 64
    → get_or (padded msg) (length msg + (64 - length msg % 64)) 0 ≡ 0
unfolding padded
padded_byte msg h =
    let r : ℕ = length msg % 64 in
    let fill : Bytes = 0x80 ∷ zeros ((119 - r) % 64) in
    let bits : Bytes = fips_length (length msg * 8) in
    let off : length msg + (64 - r) - length msg ≡ suc (63 - r) = omega arith in
    get_or-append_ge msg (fill ++ bits) (length msg + (64 - r)) 0 (omega arith)
    ∙ ap (λ k. get_or (fill ++ bits) k 0) off
    ∙ get_or-append_lt fill bits (suc (63 - r)) 0
        (omega (arith, length-replicate {A = ℕ} ((119 - r) % 64) 0))
    ∙ get_or-replicate ((119 - r) % 64) (63 - r) 0

first_byte :
    (tail rest : Bytes)
    → 0 < length tail
    → get_or (take 56 (closed tail) ++ rest) 0 0 ≡ get_or tail 0 0
first_byte [] rest h = absurd (omega arith)
first_byte (c ∷ tail) rest h = refl

padded_twice_byte :
    (msg : Bytes)
    → 55 < length msg % 64
    → get_or (padded_twice msg) (length msg + (64 - length msg % 64)) 0 ≡ get_or (tail_of msg) 0 0
unfolding padded_twice
padded_twice_byte msg h =
    let r : ℕ = length msg % 64 in
    let tail : Bytes = tail_of msg in
    let size = length-tail_of msg in
    let fill : Bytes = 0x80 ∷ zeros (63 - length tail) in
    let fill_size = length-replicate {A = ℕ} (63 - length tail) 0 in
    let last : Bytes = last_block tail (length msg) in
    let off : length msg + (64 - r) - length msg - length fill ≡ 0 = omega arith in
    get_or-append_ge msg (fill ++ last) (length msg + (64 - r)) 0 (omega arith)
    ∙ get_or-append_ge fill last (length msg + (64 - r) - length msg) 0 (omega arith)
    ∙ ap (λ k. get_or last k 0) off
    ∙ first_byte tail (big_endian64 (length msg * 8)) (omega arith)

-- Where more than 55 bytes of a text shorter than 2 ^ 31 - 64 stand behind its whole blocks, `SHA_GO`
-- does the work of FIPS 180-1 on the blocks of other bytes than the text with the padding of the
-- standard: the last block begins with the bytes of the one before it instead of zeros.
pub sha_go_wrong :
    (s : Sha1) (input : Bytes)
    → length (c_text input) < 2 ^ 31 - 64
    → 55 < length (c_text input) % 64
    → (r : Sha1) × (sha_go s input ≡ some r)
      × (r.h
          ≡ absorb fips_block
              (length (padded_twice (c_text input)) / 64)
              fips_start
              (padded_twice (c_text input)))
      × (padded_twice (c_text input) ≢ padded (c_text input))
sha_go_wrong s input l h =
    let text : Bytes = c_text input in
    let at : ℕ = length text + (64 - length text % 64) in
    let some_byte =
      first_pos (tail_of text)
        (All-drop (λ c. 0 < c) (length text / 64 * 64) text (c_text-All input))
        (omega (arith, length-tail_of text)) in
    let (r, run, is) = sha_go-finish s input l in
    (
      r,
      run,
      is
          ∙ finish_long (sha_init s).h text h
          ∙ absorb-fips s (length (padded_twice text) / 64) (padded_twice text),
      λ e.
          let same : get_or (padded_twice text) at 0 ≡ get_or (padded text) at 0 =
            ap (λ z. get_or z at 0) e in
          absurd (omega (arith, padded_byte text h, padded_twice_byte text h)),
    )
