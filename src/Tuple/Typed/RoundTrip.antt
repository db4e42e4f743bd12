-- ===== src/Tuple/Typed/RoundTrip.antt =====
-- A tuple of static types, `u64`, `u32`, `bool` and `String`, is read back from what it is packed to.
use foundationdb_rs.Prelude.{
  ℕ, ◌+◌, ◌^◌, ◌≤◌, ◌<◌, ◌≡◌, refl, true, false, Bool-cases, inl, inr, List, [], ◌∷◌, ◌++◌,
  append_assoc, length, leb, if◌then◌else◌, ◌*◌, ◌%◌, leb→le, ok, arith,
}
use foundationdb_rs.Tuple.Codes.{nil_code, string_code, true_code, false_code}
use foundationdb_rs.Tuple.Offset.{VersionstampOffset, add_offset}
use foundationdb_rs.Tuple.Bytes.{Memchr}
use foundationdb_rs.Tuple.Bytes.Escaped.{escaped, IsClear, write_bytes-escaped, parse_slice-escaped}
use foundationdb_rs.Tuple.Utf8.{is_utf8}
use foundationdb_rs.Tuple.Words.{byte_len}
use foundationdb_rs.Tuple.Integers.{max_size}
use foundationdb_rs.Tuple.Integers.Unsigned.{ux_bytes, pack_ux-ux_bytes, unpack_uint-ux_bytes}
use foundationdb_rs.Tuple.Element.{pack_bool, unpack_bool, pack_str, unpack_str}
use foundationdb_rs.Tuple.Typed.{
  Shape, u64, u32, boolean, text, Value, Values, pack_value, unpack_value, pack_values,
  unpack_values, pack_typed, unpack_typed,
}

-- The values of Rust's types; a string that does not fit in a `u32` cannot be packed.
abbrev pub IsValue : (s : Shape) → Value s → Type 0
IsValue u64 n = n < 2 ^ (8 * 8)
IsValue u32 n = n < 2 ^ (8 * 4)
IsValue boolean b = Unit
IsValue text v = (is_utf8 v ≡ true) × (length v < 2 ^ 32)

abbrev pub AreValues : (ss : List Shape) → Values ss → Type 0
AreValues [] vs = Unit
AreValues (s ∷ ss) (v, vs) = IsValue s v × AreValues ss vs

abbrev pub encode_value : (s : Shape) → Value s → List ℕ
encode_value u64 n = ux_bytes 8 n
encode_value u32 n = ux_bytes 4 n
encode_value boolean b = (if b then true_code else false_code) ∷ []
encode_value text v = string_code ∷ (escaped v ++ nil_code ∷ [])

abbrev pub encode_values : (ss : List Shape) → Values ss → List ℕ
encode_values [] vs = []
encode_values (s ∷ ss) (v, vs) = encode_value s v ++ encode_values ss vs

pub ux_bytes-IsClear : (sz n : ℕ) (rest : List ℕ) → sz ≤ 16 → IsClear (ux_bytes sz n ++ rest)
ux_bytes-IsClear sz n rest h = elim (Bool-cases (leb (byte_len sz n) max_size)) [
  | inl short ↦ rw short (omega (arith, leb→le (byte_len sz n) max_size short))
  | inr long ↦ rw long (omega arith)
]

encode_value-IsClear :
    (s : Shape) (v : Value s) (rest : List ℕ) → IsClear (encode_value s v ++ rest)
encode_value-IsClear u64 n rest = ux_bytes-IsClear 8 n rest (omega arith)
encode_value-IsClear u32 n rest = ux_bytes-IsClear 4 n rest (omega arith)
encode_value-IsClear boolean true rest = omega arith
encode_value-IsClear boolean false rest = omega arith
encode_value-IsClear text v rest = omega arith

encode_values-IsClear : (ss : List Shape) (vs : Values ss) → IsClear (encode_values ss vs)
encode_values-IsClear [] vs = tt
encode_values-IsClear (s ∷ ss) (v, vs) = encode_value-IsClear s v (encode_values ss vs)

module _ (m : Memchr) where
  pack_value-encode_value :
      (s : Shape) (v : Value s)
      → IsValue s v
      → (offset : VersionstampOffset) × (pack_value m s v ≡ ok (encode_value s v, offset))
  unfolding pack_value pack_bool pack_str
  pack_value-encode_value u64 n h = (_, pack_ux-ux_bytes 8 n (omega arith))
  pack_value-encode_value u32 n h = (_, pack_ux-ux_bytes 4 n (omega arith))
  pack_value-encode_value boolean b h = (_, refl)
  pack_value-encode_value text v h = (
    VersionstampOffset.none ((length (escaped v ++ nil_code ∷ []) + 1) % 2 ^ 32),
    rw (write_bytes-escaped m v h.1),
  )

  unpack_value-encode_value :
      (s : Shape) (v : Value s) (rest : List ℕ)
      → IsValue s v
      → IsClear rest
      → unpack_value m s (encode_value s v ++ rest) ≡ ok (rest, v)
  unfolding unpack_value unpack_bool unpack_str
  unpack_value-encode_value u64 n rest h clear =
      unpack_uint-ux_bytes 8 8 n rest (refl, omega arith) h
  unpack_value-encode_value u32 n rest h clear =
      unpack_uint-ux_bytes 4 4 n rest (refl, omega arith) h
  unpack_value-encode_value boolean true rest h clear = refl
  unpack_value-encode_value boolean false rest h clear = refl
  unpack_value-encode_value text v rest h clear =
      rw (append_assoc (escaped v) (nil_code ∷ []) rest, parse_slice-escaped m v rest clear, h.0)

  pack_values-encode_values :
      (ss : List Shape) (vs : Values ss) (o : VersionstampOffset)
      → AreValues ss vs
      → (offset : VersionstampOffset) × (pack_values m ss vs o ≡ ok (encode_values ss vs, offset))
  unfolding pack_values
  pack_values-encode_values [] vs o h = (o, refl)
  pack_values-encode_values (s ∷ ss) (v, vs) o h =
      let (first, packed) = pack_value-encode_value s v h.0 in
      let (all, others) = pack_values-encode_values ss vs (add_offset o first) h.1 in
      (all, rw (packed, others))

  unpack_values-encode_values :
      (ss : List Shape) (vs : Values ss)
      → AreValues ss vs
      → unpack_values m ss (encode_values ss vs) ≡ ok ([], vs)
  unfolding unpack_values
  unpack_values-encode_values [] vs h = refl
  unpack_values-encode_values (s ∷ ss) (v, vs) h = rw (
    unpack_value-encode_value s v (encode_values ss vs) h.0 (encode_values-IsClear ss vs),
    unpack_values-encode_values ss vs h.1,
  )

  pub pack_typed-encode_values :
      (ss : List Shape) (vs : Values ss)
      → AreValues ss vs
      → (offset : VersionstampOffset) × (pack_typed m ss vs ≡ ok (encode_values ss vs, offset))
  unfolding pack_typed
  pack_typed-encode_values ss vs h = pack_values-encode_values ss vs (VersionstampOffset.none 0) h

  pub unpack_typed-encode_values :
      (ss : List Shape) (vs : Values ss)
      → AreValues ss vs
      → unpack_typed m ss (encode_values ss vs) ≡ ok vs
  unfolding unpack_typed
  unpack_typed-encode_values ss vs h = rw (unpack_values-encode_values ss vs h)

  -- A tuple with any number of fields, each a u64, a u32, a bool or a String of fewer than 2^32 bytes,
  -- is packed at the root without an error and unpacked to the same values.
  pub unpack_typed-pack_typed :
      (ss : List Shape) (vs : Values ss)
      → AreValues ss vs
      → (bs : List ℕ) × (offset : VersionstampOffset) × (pack_typed m ss vs ≡ ok (bs, offset))
        × (unpack_typed m ss bs ≡ ok vs)
  unpack_typed-pack_typed ss vs h =
      let (offset, packed) = pack_typed-encode_values ss vs h in
      (encode_values ss vs, offset, packed, unpack_typed-encode_values ss vs h)
