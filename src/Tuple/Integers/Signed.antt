-- ===== src/Tuple/Integers/Signed.antt =====
-- Signed integers are read back from what they are packed to.
use foundationdb_rs.Prelude.{
  ℕ, zero, suc, ◌+◌, ◌-◌, ◌*◌, ◌%◌, ◌^◌, ◌≤◌, ◌<◌, ◌≡◌, sym, ap, ◌∙◌, ◌&&◌, true, false, List, ◌∷◌,
  ◌++◌, ltb, leb, Bool-cases, inl, inr, if◌then◌else◌, length, ok, arith, ℤ, pos, negsuc, pow_half,
  pow_split, pow_pos, lt→ltb, le→ltb,
}
use native.Mathlib.Nat.{mod-eq_of_lt, add-mod_right}
use foundationdb_rs.Tuple.Codes.{intzero, negintstart, posintend}
use foundationdb_rs.Tuple.Offset.{VersionstampOffset}
use foundationdb_rs.Tuple.Words.{
  be_bytes, byte_len, byte_len-le, byte_len_upper, length-be_bytes, be_bytes-low, to_bits,
  from_bits, from_be_bytes-be_bytes, from_be_bytes-zeros, from_be_bytes-ones,
}
use foundationdb_rs.Tuple.Integers.{pack_ix, unpack_px, unpack_nx, unpack_int, max_size}
use foundationdb_rs.Tuple.Integers.Unsigned.{
  IsIntType, ux_bytes, length-ux_bytes, low_bytes, parse_bytes-append,
}

-- The integers of a signed type of `w` bits.
abbrev pub IsSigned : ℕ → ℤ → Type 0
IsSigned w (pos n) = n < 2 ^ (w - 1)
IsSigned w (negsuc n) = n < 2 ^ (w - 1)

-- The number that the bytes of -(k + 1) stand for.
abbrev pub complement : ℕ → ℕ → ℕ
complement n a = 2 ^ (8 * n) - 1 - a

-- What a signed integer is packed to.
abbrev pub ix_bytes : ℕ → ℤ → List ℕ
ix_bytes sz (pos u) = ux_bytes sz u
ix_bytes sz (negsuc k) =
    let n = byte_len sz (k + 1) in
    let number = be_bytes n (complement n (k + 1)) in
    if leb n max_size then (intzero - n) ∷ number else negintstart ∷ (255 - n) ∷ number

pub needs_a_byte : (n a : ℕ) → 0 < a → a < 2 ^ (8 * n) → 0 < n
needs_a_byte zero a h below = absurd (omega arith)
needs_a_byte (suc n) a h below = omega arith

pred_mul : (p q : ℕ) → 0 < p → (p - 1) * q + q ≡ p * q
pred_mul zero q h = elim h [ ]
pred_mul (suc p) q h = let less : suc p - 1 ≡ p = omega arith in rw less (omega arith)

-- Filled up with ones, the complement at `n` bytes is the complement at `sz`.
complement_fill :
    (sz n a : ℕ)
    → n ≤ sz
    → a < 2 ^ (8 * n)
    → (2 ^ (8 * (sz - n)) - 1) * 2 ^ (8 * n) + complement n a ≡ complement sz a
complement_fill sz n a h below =
    let p = 2 ^ (8 * (sz - n)) in
    let q = 2 ^ (8 * n) in
    let whole : sz ≡ sz - n + n = omega arith in
    let product : 2 ^ (8 * sz) ≡ p * q = ap (λ k. 2 ^ (8 * k)) whole ∙ pow_split (sz - n) n in
    let positive : 1 ≤ p = pow_pos (8 * (sz - n)) in
    let larger : q ≤ p * q = grind arith in rw product (omega (arith, pred_mul p q positive))

-- `i.wrapping_sub(1)` of a negative integer, as a pattern.
wrapping_pred :
    (w k : ℕ)
    → 0 < w
    → k < 2 ^ (w - 1)
    → (to_bits w (negsuc k) + 2 ^ w - 1) % 2 ^ w ≡ 2 ^ w - 1 - (k + 1)
unfolding to_bits
wrapping_pred w k positive h =
    let half = pow_half w positive in
    let sum : 2 ^ w - 1 - k + 2 ^ w - 1 ≡ (2 ^ w - 1 - (k + 1)) + 2 ^ w = omega arith in
    rw sum (add-mod_right (2 ^ w - 1 - (k + 1)) (2 ^ w) ∙ mod-eq_of_lt (omega (arith, pow_pos w)))

unpack_px-be_bytes :
    (sz n u : ℕ) (rest : List ℕ)
    → u < 2 ^ (8 * n)
    → u < 2 ^ (8 * sz - 1)
    → unpack_px sz (be_bytes n u ++ rest) n ≡ ok (rest, pos u)
unfolding unpack_px from_bits
unpack_px-be_bytes sz n u rest h signed = rw (
  parse_bytes-append n (be_bytes n u) rest (omega (arith, length-be_bytes n u)),
  from_be_bytes-zeros (sz - n) (be_bytes n u),
  from_be_bytes-be_bytes n u h,
  lt→ltb _ _ signed,
)

unpack_nx-be_bytes :
    (sz n k : ℕ) (rest : List ℕ)
    → 0 < sz
    → n ≤ sz
    → k + 1 < 2 ^ (8 * n)
    → k < 2 ^ (8 * sz - 1)
    → unpack_nx sz (be_bytes n (complement n (k + 1)) ++ rest) n ≡ ok (rest, negsuc k)
unfolding unpack_nx from_bits
unpack_nx-be_bytes sz n k rest positive fits h signed =
    let a = k + 1 in
    let w = 8 * sz in
    let number = be_bytes n (complement n a) in
    let half = pow_half w (omega arith) in
    let sum : complement sz a + 1 ≡ 2 ^ w - a = omega arith in
    let next : (complement sz a + 1) % 2 ^ w ≡ 2 ^ w - a =
      rw sum (mod-eq_of_lt {n = 2 ^ w - a} {m = 2 ^ w} (omega arith)) in
    let back : 2 ^ w - 1 - (2 ^ w - a) ≡ k = omega arith in
    rw (
      parse_bytes-append n number rest (omega (arith, length-be_bytes n (complement n a))),
      from_be_bytes-ones (sz - n) n (complement n a) (omega (arith, pow_pos (8 * n))),
      complement_fill sz n a fits h,
      next,
      le→ltb (2 ^ w - a) (2 ^ (w - 1)) (omega arith),
      back,
    )

pub length-ix_bytes : (sz : ℕ) (i : ℤ) → length (ix_bytes sz i) ≤ sz + 2
length-ix_bytes sz (pos u) = length-ux_bytes sz u
length-ix_bytes sz (negsuc k) =
    let n = byte_len sz (k + 1) in
    ground (arith, byte_len-le sz (k + 1), length-be_bytes n (complement n (k + 1)))

-- A signed integer is packed without an error, and the offset is the number of bytes.
pub pack_ix-ix_bytes :
    (sz : ℕ) (i : ℤ)
    → 0 < sz
    → sz ≤ 16
    → IsSigned (8 * sz) i
    → pack_ix sz i ≡ ok (ix_bytes sz i, VersionstampOffset.none (length (ix_bytes sz i)))
unfolding pack_ix
pack_ix-ix_bytes sz (pos u) positive h i =
    let n = byte_len sz u in
    let fits : n ≤ sz = byte_len-le sz u in
    rw (low_bytes sz n u fits) (ground (arith, length-be_bytes n u))
pack_ix-ix_bytes sz (negsuc k) positive h i =
    let a = k + 1 in
    let n = byte_len sz a in
    let fits : n ≤ sz = byte_len-le sz a in
    let half = pow_half (8 * sz) (omega arith) in
    let below : a < 2 ^ (8 * n) = byte_len_upper sz a (omega (arith, pow_pos (8 * sz - 1))) in
    let low : be_bytes n (complement sz a) ≡ be_bytes n (complement n a) =
      ap (be_bytes n) (sym (complement_fill sz n a fits below))
      ∙ be_bytes-low n (2 ^ (8 * (sz - n)) - 1) (complement n a) in
    rw (wrapping_pred (8 * sz) k (omega arith) i, low_bytes sz n (complement sz a) fits, low)
      (ground (arith, length-be_bytes n (complement n a)))

-- A signed integer is read back from its bytes, and the input that follows is left.
pub unpack_int-ix_bytes :
    (sz max_sz : ℕ) (i : ℤ) (rest : List ℕ)
    → IsIntType sz max_sz
    → 0 < sz
    → IsSigned (8 * sz) i
    → unpack_int sz max_sz (ix_bytes sz i ++ rest) ≡ ok (rest, i)
unfolding unpack_int
unpack_int-ix_bytes sz max_sz (pos u) rest type positive h =
    let n = byte_len sz u in
    let fits : n ≤ sz = byte_len-le sz u in
    let half = pow_half (8 * sz) (omega arith) in
    let below : u < 2 ^ (8 * n) = byte_len_upper sz u (omega arith) in
    let back = unpack_px-be_bytes sz n u rest below h in
    elim (Bool-cases (leb n max_size)) [
      | inl short ↦
          let code : intzero + n - intzero ≡ n = omega arith in
          let in_range : (leb intzero (intzero + n) && leb (intzero + n) (intzero + max_sz))
              ≡ true =
            ground arith in
          rw (short, in_range, code) back
      | inr long ↦
          let high : leb posintend (intzero + max_sz) ≡ false = ground arith in
          let low : leb (intzero - max_sz) posintend ≡ true = ground arith in
          let fits' : ltb sz n ≡ false = ground arith in rw (long, high, low, fits') back
    ]
unpack_int-ix_bytes sz max_sz (negsuc k) rest type positive h =
    let a = k + 1 in
    let n = byte_len sz a in
    let fits : n ≤ sz = byte_len-le sz a in
    let half = pow_half (8 * sz) (omega arith) in
    let below : a < 2 ^ (8 * n) = byte_len_upper sz a (omega arith) in
    let back = unpack_nx-be_bytes sz n k rest positive fits below h in
    elim (Bool-cases (leb n max_size)) [
      | inl short ↦
          let some_bytes = needs_a_byte n a (omega arith) below in
          let code : intzero - (intzero - n) ≡ n = omega arith in
          let high : leb intzero (intzero - n) ≡ false = ground arith in
          let in_range : (leb (intzero - max_sz) (intzero - n) && ltb (intzero - n) intzero)
              ≡ true =
            ground arith in
          rw (short, high, in_range, code) back
      | inr long ↦
          let low : leb (intzero - max_sz) negintstart ≡ false = ground arith in
          let code : 255 - (255 - n) ≡ n = omega arith in
          let fits' : ltb sz n ≡ false = ground arith in rw (long, low, code, fits') back
    ]

-- A signed integer of any of the types is packed without an error, the offset counts the bytes
-- written, and unpacking gives the integer back and leaves the input that follows.
pub unpack_int-pack_ix :
    (sz max_sz : ℕ) (i : ℤ) (rest : List ℕ)
    → IsIntType sz max_sz
    → 0 < sz
    → IsSigned (8 * sz) i
    → (bs : List ℕ) × (pack_ix sz i ≡ ok (bs, VersionstampOffset.none (length bs)))
      × (unpack_int sz max_sz (bs ++ rest) ≡ ok (rest, i))
unpack_int-pack_ix sz max_sz i rest type positive h = (
  ix_bytes sz i,
  pack_ix-ix_bytes sz i positive type.1 h,
  unpack_int-ix_bytes sz max_sz i rest type positive h,
)
