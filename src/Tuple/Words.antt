-- ===== src/Tuple/Words.antt =====
-- Big-endian bytes of machine words, and the number of bytes that a word needs: the parts of the
-- standard library that foundationdb-tuple/src/pack.rs packs integers with.
use foundationdb_rs.Prelude.{
  ℕ, zero, suc, ◌+◌, ◌-◌, ◌*◌, ◌/◌, ◌%◌, ◌^◌, ◌≤◌, ◌<◌, ◌≡◌, refl, ap, ap₂, ◌∙◌, List, [], ◌∷◌,
  ◌++◌, ltb, ltb→lt, Bool-cases, inl, inr, if◌then◌else◌, length, All, drop, replicate, arith,
  pow_pos, pow_mono, pow_byte, ℤ, pos, negsuc,
}
use native.Mathlib.Nat.{div-add-mod, mul-add-mod_self_left, mod-eq_of_lt, mod-lt, add-mul-div_right}
use foundationdb_rs.Tuple.Bytes.{IsByte}

-- `to_be_bytes` of a word of `n` bytes.
unfoldable pub be_bytes : ℕ → ℕ → List ℕ
be_bytes zero u = []
be_bytes (suc n) u = u / 2 ^ (8 * n) % 256 ∷ be_bytes n u

unfoldable pub from_be_bytes_from : ℕ → List ℕ → ℕ
from_be_bytes_from acc [] = acc
from_be_bytes_from acc (b ∷ bs) = from_be_bytes_from (acc * 256 + b) bs

unfoldable pub from_be_bytes : List ℕ → ℕ
unfolding from_be_bytes_from
from_be_bytes = from_be_bytes_from 0

-- `leading_zeros` of a word of `w` bits.
unfoldable pub leading_zeros : ℕ → ℕ → ℕ
leading_zeros zero u = 0
leading_zeros (suc w) u = let later = leading_zeros w u in if ltb u (2 ^ w) then suc later else 0

-- `SZ - (u.leading_zeros() as usize) / 8`: the number of bytes that `u` needs.
unfoldable pub byte_len : ℕ → ℕ → ℕ
byte_len sz u = sz - leading_zeros (8 * sz) u / 8

-- The two's complement pattern of an integer, and the integer of a pattern, at `w` bits.
unfoldable pub to_bits : ℕ → ℤ → ℕ
to_bits w (pos n) = n
to_bits w (negsuc n) = 2 ^ w - 1 - n

unfoldable pub from_bits : ℕ → ℕ → ℤ
from_bits w p = if ltb p (2 ^ (w - 1)) then pos p else negsuc (2 ^ w - 1 - p)

pub length-be_bytes : (n u : ℕ) → length (be_bytes n u) ≡ n
unfolding be_bytes
length-be_bytes zero u = refl
length-be_bytes (suc n) u = ap suc (length-be_bytes n u)

pub be_bytes-IsByte : (n u : ℕ) → All IsByte (be_bytes n u)
unfolding be_bytes
be_bytes-IsByte zero u = tt
be_bytes-IsByte (suc n) u = (omega arith, be_bytes-IsByte n u)

pub leading_zeros-le : (w u : ℕ) → leading_zeros w u ≤ w
unfolding leading_zeros
leading_zeros-le zero u = omega arith
leading_zeros-le (suc w) u = ground (arith, leading_zeros-le w u)

-- A word is below the power of two that its leading zeros leave, and not below the half of it.
pub leading_zeros_upper : (w u : ℕ) → u < 2 ^ w → u < 2 ^ (w - leading_zeros w u)
unfolding leading_zeros
leading_zeros_upper zero u h = h
leading_zeros_upper (suc w) u h = elim (Bool-cases (ltb u (2 ^ w))) [
  | inl small ↦
      let shorter : suc w - suc (leading_zeros w u) ≡ w - leading_zeros w u = omega arith in
      rw small (rw shorter (leading_zeros_upper w u (ltb→lt u (2 ^ w) small)))
  | inr large ↦ let whole : suc w - 0 ≡ suc w = omega arith in rw large (rw whole h)
]

pub drop-be_bytes : (k n u : ℕ) → drop k (be_bytes (k + n) u) ≡ be_bytes n u
unfolding be_bytes
drop-be_bytes zero n u = ap (λ j. be_bytes j u) {x = zero + n} {y = n} (omega arith)
drop-be_bytes (suc k) n u =
    let longer : suc k + n ≡ suc (k + n) = omega arith in rw longer (drop-be_bytes k n u)

-- A digit to the base 256, and what stands below it.
low_digit : (u p : ℕ) → 0 < p → u % (256 * p) ≡ u / p % 256 * p + u % p
low_digit u p h =
    let digit = u / p % 256 * p + u % p in
    let split : u ≡ 256 * p * (u / p / 256) + digit =
      omega (arith, div-add-mod u p, ap (λ (t : ℕ). t * p) (div-add-mod (u / p) 256)) in
    let below : digit < 256 * p = grind (arith, mod-lt u h) in
    ap (λ (t : ℕ). t % (256 * p)) split
    ∙ (mul-add-mod_self_left (256 * p) (u / p / 256) digit ∙ mod-eq_of_lt below)

-- Reading bytes back into an accumulator gives it shifted, and the low bytes of the word.
pub from_be_bytes_from-be_bytes :
    (n u acc : ℕ) → from_be_bytes_from acc (be_bytes n u) ≡ acc * 2 ^ (8 * n) + u % 2 ^ (8 * n)
unfolding be_bytes from_be_bytes_from
from_be_bytes_from-be_bytes zero u acc = omega arith
from_be_bytes_from-be_bytes (suc n) u acc =
    rw
      (
        from_be_bytes_from-be_bytes n u (acc * 256 + u / 2 ^ (8 * n) % 256),
        pow_byte n,
        low_digit u (2 ^ (8 * n)) (pow_pos (8 * n)),
      )
      (omega arith)

pub from_be_bytes-be_bytes : (n u : ℕ) → u < 2 ^ (8 * n) → from_be_bytes (be_bytes n u) ≡ u
unfolding from_be_bytes
from_be_bytes-be_bytes n u h = rw (from_be_bytes_from-be_bytes n u 0, mod-eq_of_lt h) (omega arith)

-- Leading zero bytes add nothing, and leading bytes of ones fill the word.
pub from_be_bytes-zeros :
    (k : ℕ) (bs : List ℕ) → from_be_bytes (replicate k 0 ++ bs) ≡ from_be_bytes bs
unfolding from_be_bytes from_be_bytes_from
from_be_bytes-zeros zero bs = refl
from_be_bytes-zeros (suc k) bs = from_be_bytes-zeros k bs

from_be_bytes_from-ones :
    (k acc : ℕ) (bs : List ℕ)
    → from_be_bytes_from acc (replicate k 255 ++ bs)
      ≡ from_be_bytes_from (acc * 2 ^ (8 * k) + (2 ^ (8 * k) - 1)) bs
unfolding from_be_bytes_from
from_be_bytes_from-ones zero acc bs = ap (λ a. from_be_bytes_from a bs) (omega arith)
from_be_bytes_from-ones (suc k) acc bs =
    from_be_bytes_from-ones k (acc * 256 + 255) bs
    ∙ ap (λ a. from_be_bytes_from a bs) (rw (pow_byte k) (omega (arith, pow_pos (8 * k))))

pub from_be_bytes-ones :
    (k n u : ℕ)
    → u < 2 ^ (8 * n)
    → from_be_bytes (replicate k 255 ++ be_bytes n u) ≡ (2 ^ (8 * k) - 1) * 2 ^ (8 * n) + u
unfolding from_be_bytes
from_be_bytes-ones k n u h =
    rw (from_be_bytes_from-ones k 0 (be_bytes n u), from_be_bytes_from-be_bytes n u, mod-eq_of_lt h)
      (omega arith)

leading_zeros_lower : (w u : ℕ) → leading_zeros w u < w → 2 ^ (w - leading_zeros w u - 1) ≤ u
unfolding leading_zeros
leading_zeros_lower zero u h = absurd (omega arith)
leading_zeros_lower (suc w) u h = elim (Bool-cases (ltb u (2 ^ w))) [
  | inl small ↦
      let n : leading_zeros (suc w) u ≡ suc (leading_zeros w u) = rw small in
      let shorter : suc w - suc (leading_zeros w u) - 1 ≡ w - leading_zeros w u - 1 = omega arith in
      rw small (rw shorter (leading_zeros_lower w u (omega arith)))
  | inr large ↦ let whole : suc w - 0 - 1 ≡ w = omega arith in rw large (rw whole (ground arith))
]

pub byte_len-le : (sz u : ℕ) → byte_len sz u ≤ sz
unfolding byte_len
byte_len-le sz u = omega arith

pub byte_len_upper : (sz u : ℕ) → u < 2 ^ (8 * sz) → u < 2 ^ (8 * byte_len sz u)
unfolding byte_len
byte_len_upper sz u h = omega (
  arith,
  leading_zeros_upper (8 * sz) u h,
  pow_mono (8 * sz - leading_zeros (8 * sz) u) (8 * (sz - leading_zeros (8 * sz) u / 8))
      (omega (arith, leading_zeros-le (8 * sz) u)),
)

pub byte_len_lower : (sz u : ℕ) → 0 < byte_len sz u → 2 ^ (8 * (byte_len sz u - 1)) ≤ u
unfolding byte_len
byte_len_lower sz u h = omega (
  arith,
  leading_zeros_lower (8 * sz) u (omega (arith, leading_zeros-le (8 * sz) u)),
  pow_mono (8 * (sz - leading_zeros (8 * sz) u / 8 - 1)) (8 * sz - leading_zeros (8 * sz) u - 1)
      (omega (arith, leading_zeros-le (8 * sz) u)),
)

-- The bytes of a word do not depend on what stands above them.
pub be_bytes-low : (n q r : ℕ) → be_bytes n (q * 2 ^ (8 * n) + r) ≡ be_bytes n r
unfolding be_bytes
be_bytes-low zero q r = refl
be_bytes-low (suc n) q r =
    let p = 2 ^ (8 * n) in
    let regroup : q * 2 ^ (8 * suc n) + r ≡ r + q * 256 * p = rw (pow_byte n) (omega arith) in
    let high : (r + q * 256 * p) / p ≡ r / p + q * 256 =
      add-mul-div_right r (q * 256) (pow_pos (8 * n)) in
    let low : r + q * 256 * p ≡ q * 256 * p + r = omega arith in
    rw (regroup) (
      ap₂ (λ (b : ℕ) (bs : List ℕ). b ∷ bs) (rw high (omega arith))
        (rw low (be_bytes-low n (q * 256) r)))
