-- ===== src/Tuple/Tests.antt =====
-- Values of the tests of foundationdb-tuple/src/lib.rs, and the theorems of the tuple layer at
-- concrete inputs.
use foundationdb_rs.Prelude.{
  ℕ, ◌+◌, ◌*◌, ◌%◌, ◌^◌, ◌<◌, ◌≡◌, ◌≢◌, ◌⊎◌, ◌↔◌, refl, true, List, [], ◌∷◌, ◌++◌, length, All, ok,
  ◌>>=◌, pos, negsuc, arith, Ordering,
}
use foundationdb_rs.Tuple.Offset.{VersionstampOffset, add_size, add_offset}
use foundationdb_rs.Tuple.Bytes.{positions, Memchr, write_bytes, parse_slice}
use foundationdb_rs.Tuple.Bytes.Escaped.{parse_slice-write_bytes}
use foundationdb_rs.Tuple.Utf8.{is_utf8}
use foundationdb_rs.Tuple.Words.{byte_len, leading_zeros, be_bytes, to_bits}
use foundationdb_rs.Tuple.Integers.{pack_ux, unpack_uint, pack_ix, unpack_int}
use foundationdb_rs.Tuple.Integers.Unsigned.{unpack_uint-pack_ux}
use foundationdb_rs.Tuple.Integers.Signed.{unpack_int-pack_ix}
use foundationdb_rs.Tuple.Floats.{pack_fx, unpack_fx, unpack_fx-pack_fx}
use foundationdb_rs.Tuple.Codes.{float_code}
use foundationdb_rs.Tuple.Versionstamp.{incomplete, is_complete}
use foundationdb_rs.Tuple.Versionstamp.{complete, transaction_version, user_version}
use foundationdb_rs.Tuple.Versionstamp.Fields.{complete_lem}
use foundationdb_rs.Prelude.{replicate, false}
use foundationdb_rs.Tuple.Element.{
  Element, Elements, nil, string, tuple, int, versionstamp, no_more, more, pack_none, pack_str,
  pack_element, unpack_element, pack_root, unpack_root,
}
use foundationdb_rs.Tuple.Element.Encoding.{IsElement, AreElements, encode}
use foundationdb_rs.Tuple.Element.RoundTrip.{unpack_element-pack_element}
use foundationdb_rs.Tuple.Element.Root.{unpack_root-pack_root}
use foundationdb_rs.Tuple.Element.Stamps.{IsOpen}
use foundationdb_rs.Tuple.Compare.{cmp_bytes, cmp_element, cmp_values, cmp_at_root, then_with}
use foundationdb_rs.Tuple.Compare.Packed.{cmp_bytes-pack_root, cmp_bytes-pack_element}
use foundationdb_rs.Tuple.Compare.Reading.{unpack_root-cmp_at_root}
use foundationdb_rs.Tuple.Subspace.{
  Subspace, from_bytes, range, is_start_of, all, from, subspace, pack, unpack,
  pack_with_versionstamp_for_key, pack_key,
}
use foundationdb_rs.Tuple.Subspace.Keys.{unpack-pack}
use foundationdb_rs.Tuple.Subspace.Made.{
  made_inside, made_raw, extended, subspace-extended, versionstamp_offset-Made,
}
use foundationdb_rs.Tuple.Subspace.Range.{pack-in_range}
use foundationdb_rs.Tuple.Subspace.Stamped.{
  IsSubspace, key_of, pack_with_versionstamp_for_key-places,
}
use foundationdb_rs.Tuple.Subspace.Joined.{
  append_elements, pack_with_versionstamp_for_key-from, subspace-from,
}
use foundationdb_rs.Tuple.Typed.{u64, text, boolean, pack_typed, unpack_typed}
use foundationdb_rs.Tuple.Typed.RoundTrip.{unpack_typed-pack_typed}

abbrev pub memchr : Memchr
memchr = record { iter = λ n v. positions n 0 v; iter_positions = λ n v. refl }

-- "foo\x00bar"
abbrev foo_bar : List ℕ
foo_bar = 0x66 ∷ 0x6f ∷ 0x6f ∷ 0x00 ∷ 0x62 ∷ 0x61 ∷ 0x72 ∷ []

-- (("foo\x00bar", None, ()),)
abbrev spec_value : Element
spec_value =
    tuple (more (tuple (more (string foo_bar) (more nil (more (tuple no_more) no_more)))) no_more)

spec_value_packed :
    pack_root memchr spec_value
    ≡ ok (
      0x05 ∷ 0x02 ∷ 0x66 ∷ 0x6f ∷ 0x6f ∷ 0x00 ∷ 0xff ∷ 0x62 ∷ 0x61 ∷ 0x72 ∷ 0x00 ∷ 0x00 ∷ 0xff
          ∷ 0x05 ∷ 0x00 ∷ 0x00 ∷ [],
      VersionstampOffset.none 16,
    )
unfolding pack_root pack_element pack_str write_bytes pack_none add_offset add_size
spec_value_packed = refl

negative_packed :
    pack_ix 4 (negsuc 5551211) ≡ ok (0x11 ∷ 0xab ∷ 0x4b ∷ 0x93 ∷ [], VersionstampOffset.none 4)
unfolding pack_ix byte_len leading_zeros be_bytes to_bits
negative_packed = refl

-- (1, -5551212)
abbrev ints : Elements
ints = more (int (pos 1)) (more (int (negsuc 5551211)) no_more)

abbrev stamp : List ℕ
stamp = 0xff ∷ 0xff ∷ 0xff ∷ 0xff ∷ 0xff ∷ 0xff ∷ 0xff ∷ 0xff ∷ 0xff ∷ 0xff ∷ 0x00 ∷ 0x09 ∷ []

-- ((stamp,), 2)
abbrev stamped : Elements
stamped = more (tuple (more (versionstamp stamp) no_more)) (more (int (pos 2)) no_more)

stamp-incomplete : incomplete 9 ≡ stamp
unfolding incomplete
stamp-incomplete = refl

abbrev string_fine : IsElement (string foo_bar)
unfolding is_utf8
string_fine = (omega arith, refl, omega arith)

abbrev spec_fine : IsElement spec_value
spec_fine = ((string_fine, (tt, (tt, tt))), tt)

abbrev ints_fine : AreElements ints
ints_fine = (omega arith, (omega arith, tt))

abbrev stamped_fine : AreElements stamped
stamped_fine = (((omega arith, refl), tt), (omega arith, tt))

unpack_root-pack_root_example :
    (bs : List ℕ) × (offset : VersionstampOffset) × (pack_root memchr spec_value ≡ ok (bs, offset))
    × (unpack_root memchr bs ≡ ok spec_value)
unpack_root-pack_root_example = unpack_root-pack_root memchr spec_value spec_fine

ints_short : 2 * length (encode (tuple ints) 1) < 100
unfolding byte_len leading_zeros be_bytes
ints_short = omega arith

unpack_element-pack_element_example :
    (bs : List ℕ) × (offset : VersionstampOffset) × (pack_element memchr (tuple ints) 1
      ≡ ok (bs, offset))
    × (unpack_element memchr 100 (bs ++ 0x00 ∷ []) 1 ≡ ok (0x00 ∷ [], tuple ints))
unpack_element-pack_element_example =
    unpack_element-pack_element memchr (tuple ints) 1 100 (0x00 ∷ []) ints_fine (omega arith)
      (omega arith) (ints_short)

unpack_root-cmp_at_root_example :
    (bs : List ℕ) × (offset : VersionstampOffset) × (w : Element) × (pack_root memchr
        (tuple (more (int (pos 1)) no_more))
      ≡ ok (bs, offset))
    × (unpack_root memchr bs ≡ ok w)
    × (cmp_at_root w (tuple (more (int (pos 1)) no_more)) ≡ Ordering.eq)
unpack_root-cmp_at_root_example =
    unpack_root-cmp_at_root memchr (tuple (more (int (pos 1)) no_more)) (omega arith, tt)

cmp_bytes-pack_root_example :
    (xs ys : List ℕ) × (o p : VersionstampOffset) × (pack_root memchr spec_value ≡ ok (xs, o))
    × (pack_root memchr (tuple ints) ≡ ok (ys, p))
    × (cmp_bytes xs ys ≡ cmp_at_root spec_value (tuple ints))
cmp_bytes-pack_root_example = cmp_bytes-pack_root memchr spec_value (tuple ints) spec_fine ints_fine

cmp_bytes-pack_element_example :
    (xs ys : List ℕ) × (o p : VersionstampOffset) × (pack_element memchr (int (negsuc 5)) 1
      ≡ ok (xs, o))
    × (pack_element memchr (int (negsuc 300)) 1 ≡ ok (ys, p))
    × (cmp_bytes (xs ++ []) (ys ++ 0x01 ∷ [])
        ≡ then_with (cmp_element (int (negsuc 5)) (int (negsuc 300))) (cmp_bytes [] (0x01 ∷ [])))
cmp_bytes-pack_element_example =
    cmp_bytes-pack_element memchr (int (negsuc 5)) (int (negsuc 300)) 1 [] (0x01 ∷ []) (omega arith)
      (omega arith) (omega arith) tt (omega arith)

unpack_int-pack_ix_example :
    (bs : List ℕ) × (pack_ix 16 (negsuc (2 ^ 100)) ≡ ok (bs, VersionstampOffset.none (length bs)))
    × (unpack_int 16 8 (bs ++ 0xff ∷ []) ≡ ok (0xff ∷ [], negsuc (2 ^ 100)))
unpack_int-pack_ix_example =
    unpack_int-pack_ix 16 8 (negsuc (2 ^ 100)) (0xff ∷ []) (refl, omega arith) (omega arith)
      (omega arith)

unpack_uint-pack_ux_example :
    (bs : List ℕ) × (pack_ux 2 65_535 ≡ ok (bs, VersionstampOffset.none (length bs)))
    × (unpack_uint 2 2 (bs ++ []) ≡ ok ([], 65_535))
unpack_uint-pack_ux_example = unpack_uint-pack_ux 2 2 65_535 [] (refl, omega arith) (omega arith)

parse_slice-write_bytes_example :
    (bs : List ℕ) × (write_bytes memchr foo_bar
      ≡ ok (bs, VersionstampOffset.none ((length bs + 1) % 2 ^ 32)))
    × (parse_slice memchr (bs ++ 0x14 ∷ []) ≡ ok (0x14 ∷ [], foo_bar))
parse_slice-write_bytes_example =
    parse_slice-write_bytes memchr foo_bar (0x14 ∷ []) (omega arith) (omega arith)

unpack_fx-pack_fx_example :
    (bs : List ℕ) × (pack_fx 4 float_code 0xc2280000 ≡ ok (bs, VersionstampOffset.none (length bs)))
    × (unpack_fx 4 float_code (bs ++ 0x00 ∷ []) ≡ ok (0x00 ∷ [], 0xc2280000))
unpack_fx-pack_fx_example =
    unpack_fx-pack_fx 4 float_code 0xc2280000 (0x00 ∷ []) (omega arith) (omega arith)

unpack_typed-pack_typed_example :
    (bs : List ℕ) × (offset : VersionstampOffset) × (pack_typed memchr
        (u64 ∷ text ∷ boolean ∷ [])
        (7, (foo_bar, (true, tt)))
      ≡ ok (bs, offset))
    × (unpack_typed memchr (u64 ∷ text ∷ boolean ∷ []) bs ≡ ok (7, (foo_bar, (true, tt))))
unpack_typed-pack_typed_example =
    unpack_typed-pack_typed memchr (u64 ∷ text ∷ boolean ∷ []) (7, (foo_bar, (true, tt)))
      (omega arith, (((string_fine).1, (string_fine).2), (tt, tt)))

-- The subspace of (1, -5551212)
abbrev ints_space : Subspace
ints_space = record {
  prefix = encode (tuple ints) 0;
  versionstamp_offset = VersionstampOffset.none 6;
}

string_short : length (encode (string foo_bar) 0) < 2 ^ 32
string_short = omega arith

unpack-pack_example :
    (key : List ℕ) × (pack memchr ints_space (string foo_bar) ≡ ok key)
    × (key ≡ ints_space.prefix ++ encode (string foo_bar) 0)
    × (is_start_of ints_space key ≡ true)
    × (unpack memchr ints_space key ≡ ok (string foo_bar))
unpack-pack_example = unpack-pack memchr ints_space (string foo_bar) string_fine string_short

pack-in_range_example :
    (key : List ℕ) × (pack memchr ints_space (string foo_bar) ≡ ok key)
    × (((cmp_values (string foo_bar) ≡ no_more) × (key ≡ ints_space.prefix))
        ⊎ ((cmp_bytes (range ints_space).0 key ≢ Ordering.gt)
            × (cmp_bytes key (range ints_space).1 ≡ Ordering.lt)))
pack-in_range_example = pack-in_range memchr ints_space (string foo_bar) string_fine string_short

abbrev all_fine : IsSubspace all
unfolding all
all_fine = record { places = []; offset = refl; open_places = tt }

stamped_short : length ([] ++ encode (tuple stamped) 0) < 2 ^ 32
unfolding byte_len leading_zeros be_bytes
stamped_short = omega arith

-- An incomplete versionstamp in the subspace of a raw prefix of one byte
abbrev raw_space : Subspace
raw_space = record { prefix = 0x41 ∷ []; versionstamp_offset = VersionstampOffset.none 1 }

raw_made : from_bytes (0x41 ∷ []) ≡ ok raw_space
unfolding from_bytes
raw_made = refl

raw_short : length ((0x41 ∷ []) ++ encode (tuple stamped) 0) < 2 ^ 32
unfolding byte_len leading_zeros be_bytes
raw_short = omega arith

versionstamp_offset-Made_example :
    ((extended raw_space (tuple stamped)).versionstamp_offset ≡ VersionstampOffset.one_incomplete 3)
    × All (IsOpen (extended raw_space (tuple stamped)).prefix) (3 ∷ [])
unfolding is_complete
versionstamp_offset-Made_example =
    versionstamp_offset-Made memchr (extended raw_space (tuple stamped)) (3 ∷ [])
      (made_inside raw_space (extended raw_space (tuple stamped)) [] (tuple stamped)
        (made_raw (0x41 ∷ []) raw_space raw_made) stamped_fine
        (subspace-extended memchr raw_space (tuple stamped) stamped_fine))
      raw_short

pack_with_versionstamp_for_key-places_example :
    (body : List ℕ) × (pack memchr all (tuple stamped) ≡ ok body)
    × All (IsOpen body) (2 ∷ [])
    × (pack_with_versionstamp_for_key memchr all (tuple stamped) (pos 510)
        ≡ key_of (2 ∷ []) body (pos 510))
unfolding all is_complete
pack_with_versionstamp_for_key-places_example =
    pack_with_versionstamp_for_key-places memchr all (tuple stamped) (pos 510) all_fine stamped_fine
      stamped_short

pack_with_versionstamp_for_key-from_example :
    (from memchr (tuple ints) >>= λ s.
    pack_with_versionstamp_for_key memchr s (tuple stamped) (pos 740))
    ≡ pack_key memchr (tuple (append_elements ints stamped)) (pos 740)
pack_with_versionstamp_for_key-from_example =
    pack_with_versionstamp_for_key-from memchr ints stamped (pos 740) ints_fine stamped_fine

subspace-from_example :
    (from memchr (tuple ints) >>= λ s. subspace memchr s (tuple stamped))
    ≡ from memchr (tuple (append_elements ints stamped))
subspace-from_example = subspace-from memchr ints stamped ints_fine stamped_fine

complete_lem_example :
    let tr : List ℕ = replicate 10 0x07 in
    (transaction_version (complete tr 513) ≡ tr)
    × (user_version (complete tr 513) ≡ 513)
    × ((is_complete (complete tr 513) ≡ false) ↔ (tr ≡ replicate 10 0xff))
    × (complete (replicate 10 0xff) 513 ≡ incomplete 513)
complete_lem_example = complete_lem (replicate 10 0x07) 513 refl (omega arith)
