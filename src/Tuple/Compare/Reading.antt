-- ===== src/Tuple/Compare/Reading.antt =====
-- What is read back is equal, in the order of elements, to what was packed.
use foundationdb_rs.Prelude.{ℕ, ◌≡◌, refl, ℤ, pos, negsuc, List, ok, Ordering}
use foundationdb_rs.Tuple.Bytes.{Memchr}
use foundationdb_rs.Tuple.Offset.{VersionstampOffset}
use foundationdb_rs.Tuple.Floats.{fx_to_be_bytes}
use foundationdb_rs.Tuple.Element.{
  Element, Elements, nil, bytes, string, tuple, int, float, double, bool, versionstamp, no_more,
  more, pack_root, unpack_root,
}
use foundationdb_rs.Tuple.Element.Encoding.{IsElement}
use foundationdb_rs.Tuple.Element.Root.{unwrapped, unpack_root-pack_root}
use foundationdb_rs.Tuple.Compare.{cmp_int, code, cmp_same, cmp_elements, cmp_values, cmp_at_root}
use foundationdb_rs.Tuple.Compare.Bytewise.{cmp_bytes_self, compare_self}

cmp_int_self : (i : ℤ) → cmp_int i i ≡ Ordering.eq
cmp_int_self (pos n) = compare_self n
cmp_int_self (negsuc n) = compare_self n

mutual
  unfolding cmp_same

  cmp_same_self : (v : Element) → cmp_same v v ≡ Ordering.eq
  cmp_same_self nil = refl
  cmp_same_self (bool b) = refl
  cmp_same_self (bytes v) = cmp_bytes_self v
  cmp_same_self (string v) = cmp_bytes_self v
  cmp_same_self (versionstamp v) = cmp_bytes_self v
  cmp_same_self (int i) = cmp_int_self i
  cmp_same_self (float f) = cmp_bytes_self (fx_to_be_bytes 4 f)
  cmp_same_self (double f) = cmp_bytes_self (fx_to_be_bytes 8 f)
  cmp_same_self (tuple vs) = cmp_elements_self vs

  cmp_elements_self : (vs : Elements) → cmp_elements vs vs ≡ Ordering.eq
  cmp_elements_self no_more = refl
  cmp_elements_self (more v vs) = rw (compare_self (code v), cmp_same_self v) (cmp_elements_self vs)

cmp_at_root-unwrapped : (v : Element) → cmp_at_root (unwrapped v) v ≡ Ordering.eq
unfolding cmp_at_root cmp_values
cmp_at_root-unwrapped (tuple no_more) = cmp_elements_self no_more
cmp_at_root-unwrapped (tuple (more (tuple ws) no_more)) =
    cmp_elements_self (more (tuple ws) no_more)
cmp_at_root-unwrapped (tuple (more v no_more)) = cmp_elements_self (more v no_more)
cmp_at_root-unwrapped (tuple (more v (more w ws))) = cmp_elements_self (more v (more w ws))
cmp_at_root-unwrapped v = cmp_elements_self (more v no_more)

module _ (m : Memchr) where
  -- An element of Rust's types is packed at the root and unpacked without an error, and `Ord` takes
  -- what is read for equal to it, also where a tuple of one value comes back as that value.
  pub unpack_root-cmp_at_root :
      (v : Element)
      → IsElement v
      → (bs : List ℕ) × (offset : VersionstampOffset) × (w : Element) × (pack_root m v
          ≡ ok (bs, offset))
        × (unpack_root m bs ≡ ok w)
        × (cmp_at_root w v ≡ Ordering.eq)
  unpack_root-cmp_at_root v h =
      let (bs, offset, packed, read) = unpack_root-pack_root m v h in
      (bs, offset, unwrapped v, packed, read, cmp_at_root-unwrapped v)
