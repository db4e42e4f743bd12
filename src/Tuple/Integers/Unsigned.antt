-- ===== src/Tuple/Integers/Unsigned.antt =====
-- Unsigned integers are read back from what they are packed to.
use foundationdb_rs.Prelude.{
  ℕ, ◌+◌, ◌-◌, ◌*◌, ◌^◌, ◌≤◌, ◌<◌, ◌≡◌, ap, ◌∙◌, ◌&&◌, true, false, List, ◌∷◌, ◌++◌, ltb, leb,
  le→ltb, Bool-cases, inl, inr, if◌then◌else◌, length, length-append, drop, take-append_eq,
  drop-append_eq, ok, arith,
}
use Prim.Native.Nat.{min}
use foundationdb_rs.Tuple.Codes.{intzero, posintend}
use foundationdb_rs.Tuple.Offset.{VersionstampOffset}
use foundationdb_rs.Tuple.Bytes.{parse_bytes}
use foundationdb_rs.Tuple.Words.{
  be_bytes, byte_len, byte_len-le, byte_len_upper, length-be_bytes, drop-be_bytes,
  from_be_bytes-be_bytes, from_be_bytes-zeros,
}
use foundationdb_rs.Tuple.Integers.{pack_ux, unpack_ux, unpack_uint, max_size}

-- Bytes that are there are split off.
pub parse_bytes-append :
    (n : ℕ) (bs rest : List ℕ) → n ≡ length bs → parse_bytes (bs ++ rest) n ≡ ok (rest, bs)
unfolding parse_bytes
parse_bytes-append n bs rest e = rw (
  le→ltb (length (bs ++ rest)) n (omega (arith, length-append bs rest)),
  drop-append_eq n bs rest e,
  take-append_eq n bs rest e,
)

-- The low bytes of a word that needs no more.
pub low_bytes : (sz n u : ℕ) → n ≤ sz → drop (sz - n) (be_bytes sz u) ≡ be_bytes n u
low_bytes sz n u h =
    let whole : sz ≡ sz - n + n = omega arith in
    ap (λ k. drop (sz - n) (be_bytes k u)) whole ∙ drop-be_bytes (sz - n) n u

-- The number and the sizes of a code for an unsigned integer.
pub unpack_ux-be_bytes :
    (sz n u : ℕ) (rest : List ℕ)
    → u < 2 ^ (8 * n)
    → unpack_ux sz (be_bytes n u ++ rest) n ≡ ok (rest, u)
unfolding unpack_ux
unpack_ux-be_bytes sz n u rest h = rw (
  parse_bytes-append n (be_bytes n u) rest (omega (arith, length-be_bytes n u)),
  from_be_bytes-zeros (sz - n) (be_bytes n u),
  from_be_bytes-be_bytes n u h,
)

-- The integer types of the macros: `max_sz` is the size, or 8 for the types of 16 bytes.
abbrev pub IsIntType : ℕ → ℕ → Type 0
IsIntType sz max_sz = (max_sz ≡ min sz max_size) × (sz ≤ 16)

-- What an unsigned integer is packed to.
abbrev pub ux_bytes : ℕ → ℕ → List ℕ
ux_bytes sz u =
    let n = byte_len sz u in
    if leb n max_size then (intzero + n) ∷ be_bytes n u else posintend ∷ n ∷ be_bytes n u

-- An unsigned integer is packed without an error, and the offset is the number of bytes.
pub pack_ux-ux_bytes :
    (sz u : ℕ)
    → sz ≤ 16
    → pack_ux sz u ≡ ok (ux_bytes sz u, VersionstampOffset.none (length (ux_bytes sz u)))
unfolding pack_ux
pack_ux-ux_bytes sz u h =
    let n = byte_len sz u in
    let fits : n ≤ sz = byte_len-le sz u in
    rw (low_bytes sz n u fits) (ground (arith, length-be_bytes n u))

pub length-ux_bytes : (sz u : ℕ) → length (ux_bytes sz u) ≤ sz + 2
length-ux_bytes sz u = ground (arith, byte_len-le sz u, length-be_bytes (byte_len sz u) u)

-- An unsigned integer is read back from its bytes, and the input that follows is left.
pub unpack_uint-ux_bytes :
    (sz max_sz u : ℕ) (rest : List ℕ)
    → IsIntType sz max_sz
    → u < 2 ^ (8 * sz)
    → unpack_uint sz max_sz (ux_bytes sz u ++ rest) ≡ ok (rest, u)
unfolding unpack_uint
unpack_uint-ux_bytes sz max_sz u rest type h =
    let n = byte_len sz u in
    let fits : n ≤ sz = byte_len-le sz u in
    let back = unpack_ux-be_bytes sz n u rest (byte_len_upper sz u h) in
    elim (Bool-cases (leb n max_size)) [
      | inl short ↦
          let code : intzero + n - intzero ≡ n = omega arith in
          let in_range : (leb intzero (intzero + n) && leb (intzero + n) (intzero + max_sz))
              ≡ true =
            ground arith in
          rw (short, in_range, code) back
      | inr long ↦
          let high : leb posintend (intzero + max_sz) ≡ false = ground arith in
          let fits' : ltb sz n ≡ false = ground arith in rw (long, high, fits') back
    ]

-- An unsigned integer of any of the types is packed without an error, the offset counts the bytes
-- written, and unpacking gives the integer back and leaves the input that follows.
pub unpack_uint-pack_ux :
    (sz max_sz u : ℕ) (rest : List ℕ)
    → IsIntType sz max_sz
    → u < 2 ^ (8 * sz)
    → (bs : List ℕ) × (pack_ux sz u ≡ ok (bs, VersionstampOffset.none (length bs)))
      × (unpack_uint sz max_sz (bs ++ rest) ≡ ok (rest, u))
unpack_uint-pack_ux sz max_sz u rest type h =
    (ux_bytes sz u, pack_ux-ux_bytes sz u type.1, unpack_uint-ux_bytes sz max_sz u rest type h)
