-- ===== src/Tuple/Integers.antt =====
-- foundationdb-tuple/src/pack.rs: the macros `impl_ux` and `impl_ix`, which encode integers. `sz` is
-- the size of the type in bytes and `max_sz` the macro's second argument, so that `u64` is 8 8,
-- `u16` is 2 2 and `u128` is 16 8. An integer is its mathematical value.
pub mod Unsigned
pub mod Signed
use foundationdb_rs.Prelude.{
  ℕ, ◌+◌, ◌-◌, ◌*◌, ◌%◌, ◌^◌, Bool, true, false, none, List, [], ◌∷◌, ◌++◌, ltb, leb, ◌==◌, ◌&&◌,
  ◌||◌, if◌then◌else◌, drop, replicate, ok, err, ◌>>=◌, ℤ, pos, negsuc,
}
use foundationdb_rs.Tuple.Codes.{unsupported_int_length, bad_code, intzero, negintstart, posintend}
use foundationdb_rs.Tuple.Offset.{VersionstampOffset, add_size}
use foundationdb_rs.Tuple.Bytes.{Parsed, Packed, parse_bytes, parse_byte}
use foundationdb_rs.Tuple.Words.{be_bytes, from_be_bytes, byte_len, to_bits, from_bits}

-- MAX_SZ
abbrev pub max_size : ℕ
max_size = 8

-- `sz <= MAX_SZ || n <= MAX_SZ`: the length fits in the type code.
abbrev is_short : ℕ → ℕ → Bool
is_short sz n = leb sz max_size || leb n max_size

-- `TuplePack for $ux`
unfoldable pub pack_ux : ℕ → ℕ → Packed
unfolding add_size
pack_ux sz u =
    let n = byte_len sz u in
    let offset = VersionstampOffset.none (n + 1) in
    let number = drop (sz - n) (be_bytes sz u) in
    if is_short sz n
    then ok ((intzero + n) ∷ number, offset)
    else ok (posintend ∷ n ∷ number, add_size offset 1)

-- The macros `unpack_ux`, `unpack_px` and `unpack_nx`: `n` bytes, filled up to the size of the type.
unfoldable pub unpack_ux : ℕ → List ℕ → ℕ → Parsed ℕ
unfolding parse_bytes
unpack_ux sz input n = do
  (rest, bytes) ← parse_bytes input n
  ok (rest, from_be_bytes (replicate (sz - n) 0 ++ bytes))

is_negative : ℤ → Bool
is_negative (pos n) = false
is_negative (negsuc n) = true

is_positive : ℤ → Bool
is_positive (pos n) = ltb 0 n
is_positive (negsuc n) = false

unfoldable pub unpack_px : ℕ → List ℕ → ℕ → Parsed ℤ
unfolding parse_bytes is_negative
unpack_px sz input n = do
  (rest, bytes) ← parse_bytes input n
  let x = from_bits (8 * sz) (from_be_bytes (replicate (sz - n) 0 ++ bytes))
  if is_negative x then err unsupported_int_length else ok (rest, x)

unfoldable pub unpack_nx : ℕ → List ℕ → ℕ → Parsed ℤ
unfolding parse_bytes is_positive
unpack_nx sz input n = do
  (rest, bytes) ← parse_bytes input n
  let pattern = from_be_bytes (replicate (sz - n) 255 ++ bytes)
  let x = from_bits (8 * sz) ((pattern + 1) % 2 ^ (8 * sz))
  if is_positive x then err unsupported_int_length else ok (rest, x)

-- `TupleUnpack for $ux`
unfoldable pub unpack_uint : ℕ → ℕ → List ℕ → Parsed ℕ
unfolding parse_byte unpack_ux
unpack_uint sz max_sz input = do
  (rest, found) ← parse_byte input
  if leb intzero found && leb found (intzero + max_sz)
      then unpack_ux sz rest (found - intzero)
      else if found == posintend
      then (do
        (rest', raw_length) ← parse_byte rest
        if ltb sz raw_length then err unsupported_int_length else unpack_ux sz rest' raw_length)
      else err (bad_code found none)

-- The absolute value of an integer, which `wrapping_abs` gives as an unsigned word.
abbrev pub nat_abs : ℤ → ℕ
nat_abs (pos n) = n
nat_abs (negsuc n) = n + 1

-- `TuplePack for $ix`; `raw ^ 0xff` is `255 - raw`.
unfoldable pub pack_ix : ℕ → ℤ → Packed
unfolding add_size is_negative
pack_ix sz i =
    let u = nat_abs i in
    let n = byte_len sz u in
    let offset = VersionstampOffset.none (n + 1) in
    if is_negative i
    then (let number =
          drop (sz - n) (be_bytes sz ((to_bits (8 * sz) i + 2 ^ (8 * sz) - 1) % 2 ^ (8 * sz))) in
        if is_short sz n
        then ok ((intzero - n) ∷ number, offset)
        else ok (negintstart ∷ (255 - n) ∷ number, add_size offset 1))
    else (let number = drop (sz - n) (be_bytes sz u) in
        if is_short sz n
        then ok ((intzero + n) ∷ number, offset)
        else ok (posintend ∷ n ∷ number, add_size offset 1))

-- `TupleUnpack for $ix`
unfoldable pub unpack_int : ℕ → ℕ → List ℕ → Parsed ℤ
unfolding parse_byte unpack_px unpack_nx
unpack_int sz max_sz input = do
  (rest, found) ← parse_byte input
  if leb intzero found && leb found (intzero + max_sz)
      then unpack_px sz rest (found - intzero)
      else if leb (intzero - max_sz) found && ltb found intzero
      then unpack_nx sz rest (intzero - found)
      else if found == negintstart
      then (do
        (rest', raw_length) ← parse_byte rest
        let n = 255 - raw_length
        if ltb sz n then err unsupported_int_length else unpack_nx sz rest' n)
      else if found == posintend
      then (do
        (rest', raw_length) ← parse_byte rest
        if ltb sz raw_length then err unsupported_int_length else unpack_px sz rest' raw_length)
      else err (bad_code found none)
