-- ===== src/Prelude/Numbers.antt =====
-- Integers over the native numbers, powers, and the machine words that the program computes with.
use Prim.Native.Nat.{ℕ, zero, suc, ◌+◌, ◌-◌, ◌*◌, ◌%◌, ◌^◌, ◌≤◌, ◌<◌}
use mathlib.Core.Path.{◌≡◌, ap, ◌∙◌}
use native.Mathlib.Nat.{pow-suc, pow-le-pow_right}
use native.Mathlib.Numerals.{towards_suc}
use native.Mathlib.Omega.{arith}

-- `negsuc n` is -(n + 1).
pub data ℤ : Type 0 where
  pos : ℕ → ℤ
  negsuc : ℕ → ℤ

-- `wrapping_add` of a `u32`.
abbrev pub add_u32 : ℕ → ℕ → ℕ
add_u32 a b = (a + b) % 2 ^ 32

pub pow_pos : (k : ℕ) → 0 < 2 ^ k
pow_pos zero = omega arith
pow_pos (suc k) = rw (pow-suc 2 k) (omega (arith, pow_pos k))

pub pow_mono : (i j : ℕ) → i ≤ j → 2 ^ i ≤ 2 ^ j
pow_mono i j h = pow-le-pow_right (omega arith) h

-- A byte more is a factor of 256.
pub pow_byte : (k : ℕ) → 2 ^ (8 * suc k) ≡ 256 * 2 ^ (8 * k)
pow_byte k =
    ap (λ e. 2 ^ e) {x = 8 * suc k} {y = 8 * k + 8} (omega arith)
    ∙ simp towards_suc (simp pow-suc (omega arith))

pub pow_half : (w : ℕ) → 0 < w → 2 ^ w ≡ 2 * 2 ^ (w - 1)
pow_half zero h = elim h [ ]
pow_half (suc w) h = let less : suc w - 1 ≡ w = omega arith in rw (less, pow-suc 2 w) (omega arith)

pub pow_split : (k n : ℕ) → 2 ^ (8 * (k + n)) ≡ 2 ^ (8 * k) * 2 ^ (8 * n)
pow_split zero n = ap (λ e. 2 ^ e) {x = 8 * (0 + n)} {y = 8 * n} (omega arith) ∙ omega arith
pow_split (suc k) n =
    let whole : suc k + n ≡ suc (k + n) = omega arith in
    rw (whole, pow_byte (k + n), pow_byte k, pow_split k n) (omega arith)
