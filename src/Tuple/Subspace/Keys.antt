-- ===== src/Tuple/Subspace/Keys.antt =====
-- Keys of a subspace: they begin with the prefix and are read back.
use foundationdb_rs.Prelude.{
  ℕ, ◌^◌, ◌<◌, ◌≡◌, refl, true, List, [], ◌∷◌, ◌++◌, ==_self, length, drop-append, ok,
}
use foundationdb_rs.Tuple.Bytes.{Memchr}
use foundationdb_rs.Tuple.Element.{Element, pack_root}
use foundationdb_rs.Tuple.Element.Encoding.{IsElement, encode, stamps, summary, pack_element-encode}
use foundationdb_rs.Tuple.Element.Root.{unwrapped, unpack_root-encode}
use foundationdb_rs.Tuple.Subspace.{Subspace, starts_with, is_start_of, pack_into, pack, unpack}

pub starts_with-append : (p k : List ℕ) → starts_with (p ++ k) p ≡ true
unfolding starts_with
starts_with-append [] k = refl
starts_with-append (x ∷ p) k = rw (==_self x) (starts_with-append p k)

module _ (m : Memchr) where
  pub pack_into-encode :
      (v : Element) (output : List ℕ)
      → IsElement v
      → pack_into m v output
        ≡ ok (output ++ encode v 0, summary (stamps v 0 0) (length (encode v 0)))
  unfolding pack_into pack_root
  pack_into-encode v output h = rw (pack_element-encode m v 0 h)

  -- A value whose encoding has fewer than 2^32 bytes is packed to a key of the subspace, which is the
  -- prefix and these bytes, and unpacking the key gives the value back, but that a tuple of one value
  -- comes back as that value.
  pub unpack-pack :
      (s : Subspace) (v : Element)
      → IsElement v
      → length (encode v 0) < 2 ^ 32
      → (key : List ℕ) × (pack m s v ≡ ok key)
        × (key ≡ s.prefix ++ encode v 0)
        × (is_start_of s key ≡ true)
        × (unpack m s key ≡ ok (unwrapped v))
  unfolding pack unpack is_start_of
  unpack-pack s v h small =
      let key = s.prefix ++ encode v 0 in
      let inside = starts_with-append s.prefix (encode v 0) in
      (
        key,
        rw (pack_into-encode v s.prefix h),
        refl,
        inside,
        rw (inside, drop-append s.prefix (encode v 0)) (unpack_root-encode m v h),
      )
