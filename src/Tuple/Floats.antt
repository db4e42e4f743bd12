-- ===== src/Tuple/Floats.antt =====
-- foundationdb-tuple/src/pack.rs: the macro `impl_fx`, which encodes floats. A float is its bit
-- pattern, which `to_bits` and `from_bits` of the program convert; `sz` is 4 for `f32`, 8 for `f64`.
use foundationdb_rs.Prelude.{
  ℕ, suc, ap, length, ◌+◌, ◌-◌, ◌*◌, ◌^◌, ◌<◌, ◌≡◌, List, ◌∷◌, ◌++◌, leb, ltb, if◌then◌else◌, ok,
  ==_self, sym, ◌>>=◌, arith, pow_half, refl,
}
use Prim.Native.Nat.{bit_xor}
use foundationdb_rs.Tuple.Offset.{VersionstampOffset}
use foundationdb_rs.Tuple.Bytes.{Parsed, Packed, parse_bytes, parse_code}
use foundationdb_rs.Tuple.Words.{be_bytes, from_be_bytes, length-be_bytes, from_be_bytes-be_bytes}
use foundationdb_rs.Tuple.Integers.Unsigned.{parse_bytes-append}

-- `f ^ MAX` is `MAX - f`; `f ^ sign_bit` adds the sign bit where it is clear, and takes it off else.
unfoldable pub order_bits : ℕ → ℕ → ℕ
order_bits sz f = if leb (2 ^ (8 * sz - 1)) f then 2 ^ (8 * sz) - 1 - f else f + 2 ^ (8 * sz - 1)

-- `f32_to_u32_be_bytes`, `f64_to_u64_be_bytes`
unfoldable pub fx_to_be_bytes : ℕ → ℕ → List ℕ
unfolding order_bits
fx_to_be_bytes sz f = be_bytes sz (order_bits sz f)

unfoldable pub pack_fx : ℕ → ℕ → ℕ → Packed
pack_fx sz code f = ok (code ∷ fx_to_be_bytes sz f, VersionstampOffset.none (sz + 1))

unfoldable pub float_of_order : ℕ → ℕ → ℕ
float_of_order sz u =
    if ltb u (2 ^ (8 * sz - 1)) then 2 ^ (8 * sz) - 1 - u else u - 2 ^ (8 * sz - 1)

unfoldable pub unpack_fx : ℕ → ℕ → List ℕ → Parsed ℕ
unfolding parse_code parse_bytes
unpack_fx sz code input = do
  rest ← parse_code input code
  (rest', bytes) ← parse_bytes rest sz
  ok (rest', float_of_order sz (from_be_bytes bytes))

order_bits_range : (sz f : ℕ) → 0 < sz → f < 2 ^ (8 * sz) → order_bits sz f < 2 ^ (8 * sz)
unfolding order_bits
order_bits_range sz f positive h = let half = pow_half (8 * sz) (omega arith) in ground arith

float_of_order-order_bits :
    (sz f : ℕ) → 0 < sz → f < 2 ^ (8 * sz) → float_of_order sz (order_bits sz f) ≡ f
unfolding order_bits float_of_order
float_of_order-order_bits sz f positive h =
    let half = pow_half (8 * sz) (omega arith) in ground arith

-- The two forms agree with the exclusive or of the program.
order_bits_positive : order_bits 4 0x3f80_0000 ≡ bit_xor 0x3f80_0000 0x8000_0000
unfolding order_bits
order_bits_positive = refl

order_bits_negative : order_bits 4 0xbf80_0001 ≡ bit_xor 0xbf80_0001 0xffff_ffff
unfolding order_bits
order_bits_negative = refl

-- The bytes behind the code are read back.
pub unpack_fx-order_bits :
    (sz code f : ℕ) (rest : List ℕ)
    → 0 < sz
    → f < 2 ^ (8 * sz)
    → unpack_fx sz code (code ∷ fx_to_be_bytes sz f ++ rest) ≡ ok (rest, f)
unfolding unpack_fx fx_to_be_bytes
unpack_fx-order_bits sz code f rest positive h =
    let bits = order_bits sz f in
    rw (
      ==_self code,
      parse_bytes-append sz (be_bytes sz bits) rest (sym (length-be_bytes sz bits)),
      from_be_bytes-be_bytes sz bits (order_bits_range sz f positive h),
      float_of_order-order_bits sz f positive h,
    )

-- A float is packed to its code and `sz` bytes, without an error, and unpacking gives its bit pattern
-- back and leaves the input that follows.
pub unpack_fx-pack_fx :
    (sz code f : ℕ) (rest : List ℕ)
    → 0 < sz
    → f < 2 ^ (8 * sz)
    → (bs : List ℕ) × (pack_fx sz code f ≡ ok (bs, VersionstampOffset.none (length bs)))
      × (unpack_fx sz code (bs ++ rest) ≡ ok (rest, f))
unfolding pack_fx fx_to_be_bytes
unpack_fx-pack_fx sz code f rest positive h =
    let size : sz + 1 ≡ suc (length (fx_to_be_bytes sz f)) =
      omega (arith, length-be_bytes sz (order_bits sz f)) in
    (
      code ∷ fx_to_be_bytes sz f,
      ap (λ (n : ℕ). ok (code ∷ fx_to_be_bytes sz f, VersionstampOffset.none n)) size,
      unpack_fx-order_bits sz code f rest positive h,
    )
