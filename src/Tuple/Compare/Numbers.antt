-- ===== src/Tuple/Compare/Numbers.antt =====
-- The byte order of packed integers is the order of the integers.
use foundationdb_rs.Prelude.{
  ℕ, zero, suc, ◌+◌, ◌-◌, ◌*◌, ◌/◌, ◌%◌, ◌^◌, ◌<◌, ◌≡◌, ◌⊎◌, inl, inr, ap, ap₂, sym, ◌∙◌, List, ◌∷◌,
  ◌++◌, true, leb, compare, arith, ℤ, pos, negsuc, pow_pos, pow_mono, pow_byte,
}
use native.Mathlib.Nat.{div-add-mod, mod-lt, mod-eq_of_lt, div-lt_iff_lt-mul}
use foundationdb_rs.Tuple.Codes.{intzero}
use foundationdb_rs.Tuple.Words.{
  be_bytes, be_bytes-low, byte_len, byte_len-le, byte_len_upper, byte_len_lower,
}
use foundationdb_rs.Tuple.Integers.{max_size}
use foundationdb_rs.Tuple.Integers.Signed.{IsSigned, ix_bytes, complement, needs_a_byte}
use foundationdb_rs.Tuple.Compare.{then_with, cmp_bytes, cmp_int}
use foundationdb_rs.Tuple.Compare.Bytewise.{compare_self, compare_lt, compare_gt}

pub compare-cases : (a b : ℕ) → (a < b) ⊎ ((a ≡ b) ⊎ (b < a))
compare-cases a b = ground arith

-- A larger high digit makes a larger number.
high_digit : (u v p : ℕ) → 0 < p → u / p < v / p → u < v
high_digit u v p h lt = grind (arith, div-add-mod u p, div-add-mod v p, mod-lt u h)

compare_shift : (k a b : ℕ) → compare (k + a) (k + b) ≡ compare a b
compare_shift k a b = ground arith

digit_small : (n u : ℕ) → u < 2 ^ (8 * suc n) → u / 2 ^ (8 * n) % 256 ≡ u / 2 ^ (8 * n)
digit_small n u h =
    let whole = pow_byte n in mod-eq_of_lt ((div-lt_iff_lt-mul (pow_pos (8 * n))).1 (omega arith))

-- The low bytes are those of the remainder.
be_bytes-mod : (n u : ℕ) → be_bytes n u ≡ be_bytes n (u % 2 ^ (8 * n))
be_bytes-mod n u =
    let p = 2 ^ (8 * n) in
    let split : u ≡ u / p * p + u % p = omega (arith, div-add-mod u p) in
    ap (be_bytes n) split ∙ be_bytes-low n (u / p) (u % p)

compare-mod : (u v p : ℕ) → u / p ≡ v / p → compare (u % p) (v % p) ≡ compare u v
compare-mod u v p same =
    let split_u : p * (u / p) + u % p ≡ u = div-add-mod u p in
    let split_v : p * (u / p) + v % p ≡ v = rw same (div-add-mod v p) in
    sym (compare_shift (p * (u / p)) (u % p) (v % p)) ∙ ap₂ compare split_u split_v

-- The bytes of two words of one size.
pub cmp_bytes-be_bytes :
    (n u v : ℕ) (r s : List ℕ)
    → u < 2 ^ (8 * n)
    → v < 2 ^ (8 * n)
    → cmp_bytes (be_bytes n u ++ r) (be_bytes n v ++ s) ≡ then_with (compare u v) (cmp_bytes r s)
unfolding be_bytes
cmp_bytes-be_bytes zero u v r s hu hv =
    let zero_u : u ≡ 0 = omega arith in let zero_v : v ≡ 0 = omega arith in rw (zero_u, zero_v)
cmp_bytes-be_bytes (suc n) u v r s hu hv =
    let p = 2 ^ (8 * n) in
    let positive = pow_pos (8 * n) in
    let hu' : u / p % 256 ≡ u / p = digit_small n u hu in
    let hv' : v / p % 256 ≡ v / p = digit_small n v hv in
    rw (hu', hv')
      (elim (compare-cases (u / p) (v / p)) [
        | inl less ↦
            rw (compare_lt (u / p) (v / p) less, compare_lt u v (high_digit u v p positive less))
        | inr (inl same) ↦
            rw (same, compare_self (v / p))
              (rw (
                be_bytes-mod n u,
                be_bytes-mod n v,
                cmp_bytes-be_bytes n (u % p) (v % p) r s (mod-lt u positive) (mod-lt v positive),
                compare-mod u v p same,
              ))
        | inr (inr more) ↦
            rw (compare_gt (u / p) (v / p) more, compare_gt u v (high_digit v u p positive more))
      ])

-- The form of an integer of eight bytes: the code holds the length.
pub short_pos : (u : ℕ) → ix_bytes 8 (pos u) ≡ (intzero + byte_len 8 u) ∷ be_bytes (byte_len 8 u) u
short_pos u =
    let fits : leb (byte_len 8 u) max_size ≡ true = ground (arith, byte_len-le 8 u) in rw fits

pub short_neg :
    (k : ℕ)
    → let n = byte_len 8 (k + 1) in
      ix_bytes 8 (negsuc k) ≡ (intzero - n) ∷ be_bytes n (complement n (k + 1))
short_neg k =
    let fits : leb (byte_len 8 (k + 1)) max_size ≡ true = ground (arith, byte_len-le 8 (k + 1)) in
    rw fits

-- A number that needs fewer bytes is smaller.
byte_len_mono : (u v : ℕ) → u < 2 ^ 64 → byte_len 8 u < byte_len 8 v → u < v
byte_len_mono u v h less = omega (
  arith,
  byte_len_upper 8 u h,
  byte_len_lower 8 v (omega arith),
  pow_mono (8 * byte_len 8 u) (8 * (byte_len 8 v - 1)) (omega arith),
)

nonzero_bytes : (k : ℕ) → k < 2 ^ 63 → 0 < byte_len 8 (k + 1)
nonzero_bytes k h =
    needs_a_byte (byte_len 8 (k + 1)) (k + 1) (omega arith) (byte_len_upper 8 (k + 1) (omega arith))

compare-complement :
    (n k l : ℕ)
    → k + 1 < 2 ^ (8 * n)
    → l + 1 < 2 ^ (8 * n)
    → compare (complement n (k + 1)) (complement n (l + 1)) ≡ compare l k
compare-complement n k l hk hl = ground arith

-- The byte order of two packed integers, and then of what follows them.
pub cmp_bytes-ix_bytes :
    (i j : ℤ) (r s : List ℕ)
    → IsSigned 64 i
    → IsSigned 64 j
    → cmp_bytes (ix_bytes 8 i ++ r) (ix_bytes 8 j ++ s) ≡ then_with (cmp_int i j) (cmp_bytes r s)
cmp_bytes-ix_bytes (pos u) (pos v) r s hi hj =
    let n = byte_len 8 u in
    let k = byte_len 8 v in
    rw (short_pos u, short_pos v)
      (elim (compare-cases n k) [
        | inl less ↦ rw (
          compare_lt (intzero + n) (intzero + k) (omega arith),
          compare_lt u v (byte_len_mono u v (omega arith) less),
        )
        | inr (inl same) ↦
            rw (same, compare_self (intzero + k))
              (cmp_bytes-be_bytes k u v r s (rw same at (byte_len_upper 8 u (omega arith)))
                (byte_len_upper 8 v (omega arith)))
        | inr (inr greater) ↦ rw (
          compare_gt (intzero + n) (intzero + k) (omega arith),
          compare_gt u v (byte_len_mono v u (omega arith) greater),
        )
      ])
cmp_bytes-ix_bytes (pos u) (negsuc l) r s hi hj = rw (
  short_pos u,
  short_neg l,
  compare_gt (intzero + byte_len 8 u) (intzero - byte_len 8 (l + 1))
      (omega (arith, nonzero_bytes l hj)),
)
cmp_bytes-ix_bytes (negsuc k) (pos v) r s hi hj = rw (
  short_neg k,
  short_pos v,
  compare_lt (intzero - byte_len 8 (k + 1)) (intzero + byte_len 8 v)
      (omega (arith, nonzero_bytes k hi)),
)
cmp_bytes-ix_bytes (negsuc k) (negsuc l) r s hi hj =
    let n = byte_len 8 (k + 1) in
    let c = byte_len 8 (l + 1) in
    rw (short_neg k, short_neg l)
      (elim (compare-cases n c) [
        | inl less ↦ rw (
          compare_gt (intzero - n) (intzero - c) (omega (arith, byte_len-le 8 (l + 1))),
          compare_gt l k (omega (arith, byte_len_mono (k + 1) (l + 1) (omega arith) less)),
        )
        | inr (inl same) ↦
            let below = byte_len_upper 8 (l + 1) (omega arith) in
            let below' : k + 1 < 2 ^ (8 * c) =
              rw same at (byte_len_upper 8 (k + 1) (omega arith)) in
            rw (same, compare_self (intzero - c))
              (rw (
                cmp_bytes-be_bytes c (complement c (k + 1)) (complement c (l + 1)) r s (omega arith)
                    (omega arith),
                compare-complement c k l below' below,
              ))
        | inr (inr greater) ↦ rw (
          compare_lt (intzero - n) (intzero - c) (omega (arith, byte_len-le 8 (k + 1))),
          compare_lt l k (omega (arith, byte_len_mono (l + 1) (k + 1) (omega arith) greater)),
        )
      ])
