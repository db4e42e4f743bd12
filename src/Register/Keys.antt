-- ===== src/Register/Keys.antt =====
-- The keys of a register: where they lie, their order, and the index that is read back.
use foundationdb_rs.Prelude.{
  ℕ, ◌^◌, ◌<◌, ◌≡◌, refl, true, List, [], ◌∷◌, ◌++◌, append_assoc, length, drop-append, leb,
  Ordering, ok, arith, pos,
}
use foundationdb_rs.Store.Ranges.{InRange}
use foundationdb_rs.Tuple.Bytes.{Memchr}
use foundationdb_rs.Tuple.Utf8.{is_utf8}
use foundationdb_rs.Tuple.Words.{byte_len, byte_len-le}
use foundationdb_rs.Tuple.Integers.{max_size}
use foundationdb_rs.Tuple.Integers.Unsigned.{ux_bytes}
use foundationdb_rs.Tuple.Integers.Signed.{ix_bytes}
use foundationdb_rs.Tuple.Element.{Element, string, tuple, no_more, more}
use foundationdb_rs.Tuple.Element.Encoding.{encode, stamps, summary}
use foundationdb_rs.Tuple.Offset.{add_offset}
use foundationdb_rs.Tuple.Compare.{cmp_bytes}
use foundationdb_rs.Tuple.Compare.Numbers.{cmp_bytes-ix_bytes, short_pos}
use foundationdb_rs.Tuple.Compare.Bytewise.{compare_lt}
use foundationdb_rs.Tuple.Subspace.{Subspace, pack, subspace, is_start_of}
use foundationdb_rs.Tuple.Subspace.Keys.{pack_into-encode, starts_with-append}
use foundationdb_rs.Tuple.Subspace.Range.{cmp_bytes-prefix, lowest, highest}
use foundationdb_rs.Tuple.Typed.RoundTrip.{
  ux_bytes-IsClear, encode_values, pack_typed-encode_values, unpack_typed-encode_values,
}
use foundationdb_rs.Register.Operations.{
  state_prefix, value_prefix, index_fields, state_key, value_subspace, value_key,
  decode_value_index,
}

-- The bytes of a tuple of one string, which is how both keys begin.
abbrev pub word : List ℕ → Element
word v = tuple (more (string v) no_more)

abbrev pub state_place : Subspace → List ℕ
state_place s = s.prefix ++ encode (word state_prefix) 0

abbrev pub values_place : Subspace → List ℕ
values_place s = s.prefix ++ encode (word value_prefix) 0

-- The packed index
abbrev pub index_bytes : ℕ → List ℕ
index_bytes index = encode_values index_fields (index, tt)

abbrev pub chunk_place : Subspace → ℕ → List ℕ
chunk_place s index = values_place s ++ index_bytes index

-- The range of the subspace of the values
abbrev pub values_begin : Subspace → List ℕ
values_begin s = values_place s ++ 0x00 ∷ []

abbrev pub values_end : Subspace → List ℕ
values_end s = values_place s ++ 0xff ∷ []

ux_bytes_signed : (i : ℕ) → ux_bytes 8 i ≡ ix_bytes 8 (pos i)
ux_bytes_signed i =
    let fits : leb (byte_len 8 i) max_size ≡ true = ground (arith, byte_len-le 8 i) in rw fits

pub chunk_place_lt :
    (s : Subspace) (i j : ℕ)
    → i < j
    → j < 2 ^ 63
    → cmp_bytes (chunk_place s i) (chunk_place s j) ≡ Ordering.lt
chunk_place_lt s i j h small =
    rw
      (
        cmp_bytes-prefix (values_place s) (index_bytes i) (index_bytes j),
        ux_bytes_signed i,
        ux_bytes_signed j,
        cmp_bytes-ix_bytes (pos i) (pos j) [] [] (omega arith) (omega arith),
        compare_lt i j h,
      )
      refl

index_bytes_size : (i : ℕ) → 0 < length (index_bytes i)
index_bytes_size i = rw (ux_bytes_signed i, short_pos i) (omega arith)

pub chunk_place-InRange :
    (s : Subspace) (i : ℕ) → InRange (values_begin s) (values_end s) (chunk_place s i)
chunk_place-InRange s i = (
  rw (cmp_bytes-prefix (values_place s) (0x00 ∷ []) (index_bytes i))
      (lowest _ (index_bytes_size i)),
  rw (cmp_bytes-prefix (values_place s) (index_bytes i) (0xff ∷ []))
      (highest _ (index_bytes_size i) (ux_bytes-IsClear 8 i [] (omega arith))),
)

-- The key of the metadata comes before the range of the values.
pub state_place_out : (s : Subspace) → InRange (values_begin s) (values_end s) (state_place s) → ⊥
state_place_out s h =
    let ordered : cmp_bytes (values_begin s) (state_place s) ≡ Ordering.gt =
      rw
        (
          append_assoc s.prefix (encode (word value_prefix) 0) (0x00 ∷ []),
          cmp_bytes-prefix s.prefix (encode (word value_prefix) 0 ++ 0x00 ∷ [])
              (encode (word state_prefix) 0),
        )
        refl in
    h.0 ordered

module _ (m : Memchr) where
  pub state_key-place : (s : Subspace) → state_key m s ≡ ok (state_place s)
  unfolding state_key pack is_utf8
  state_key-place s =
      rw (pack_into-encode m (word state_prefix) s.prefix (((omega arith), refl, omega arith), tt))
        refl

  pub value_subspace-place :
      (s : Subspace)
      → (values : Subspace) × (value_subspace m s ≡ ok values) × (values.prefix ≡ values_place s)
  unfolding value_subspace subspace is_utf8
  value_subspace-place s =
      let packed =
        pack_into-encode m (word value_prefix) s.prefix ((omega arith, refl, omega arith), tt) in
      (
        record {
          prefix = values_place s;
          versionstamp_offset =
              add_offset s.versionstamp_offset
                (summary (stamps (word value_prefix) 0 0) (length (encode (word value_prefix) 0)));
        },
        rw packed refl,
        refl,
      )

  pub value_key-place :
      (s : Subspace) (index : ℕ) → index < 2 ^ 64 → value_key m s index ≡ ok (chunk_place s index)
  unfolding value_key
  value_key-place s index h =
      let (values, made, prefix) = value_subspace-place s in
      let (offset, packed) = pack_typed-encode_values m index_fields (index, tt) (h, tt) in
      rw (made, packed, prefix) refl

  pub decode_value_index-place :
      (values : Subspace) (s : Subspace) (index : ℕ)
      → values.prefix ≡ values_place s
      → index < 2 ^ 64
      → decode_value_index m values (chunk_place s index) ≡ ok index
  unfolding decode_value_index is_start_of
  decode_value_index-place values s index prefix h =
      rw
        (
          prefix,
          starts_with-append (values_place s) (index_bytes index),
          drop-append (values_place s) (index_bytes index),
          unpack_typed-encode_values m index_fields (index, tt) (h, tt),
        )
        refl
