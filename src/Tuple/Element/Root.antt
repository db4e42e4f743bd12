-- ===== src/Tuple/Element/Root.antt =====
-- A packed value at the root is read back: packing forgets whether one value stood in a tuple.
use foundationdb_rs.Prelude.{
  ℕ, zero, suc, ◌+◌, ◌*◌, ◌<◌, ◌≡◌, refl, ◌∙◌, false, List, [], ◌∷◌, ◌++◌, append-nil, length,
  length-append, ok, arith,
}
use foundationdb_rs.Tuple.Offset.{VersionstampOffset}
use foundationdb_rs.Tuple.Bytes.{Memchr}
use foundationdb_rs.Tuple.Bytes.Escaped.{IsClear}
use foundationdb_rs.Tuple.Element.{
  Element, Elements, nil, tuple, bool, no_more, more, is_end_of_tuple, kind_of, unpack_element,
  unpack_loop, unpack_vec, root_tail, unpack_root, pack_root,
}
use foundationdb_rs.Tuple.Element.Encoding.{
  IsElement, AreElements, encode, encode_all, stamps, summary, pack_element-encode,
}
use foundationdb_rs.Tuple.Element.RoundTrip.{
  IsLeaf, encode-Starts, unpack_element-leaf, unpack_element-encode,
}

-- What is read back: a tuple of one value is that value, unless the value is itself a tuple.
abbrev pub unwrapped : Element → Element
unwrapped (tuple (more (tuple ws) no_more)) = tuple (more (tuple ws) no_more)
unwrapped (tuple (more v no_more)) = v
unwrapped v = v

nonempty : (bs : List ℕ) → 0 < length bs → is_end_of_tuple bs false ≡ false
unfolding is_end_of_tuple
nonempty [] h = absurd (omega arith)
nonempty (b ∷ bs) h = refl

-- At the root a value that is no tuple is written as in a tuple.
pub encode-root : (v : Element) → IsLeaf v → encode v 0 ≡ encode v 1
encode-root (tuple vs) leaf = absurd leaf
encode-root nil leaf = refl
encode-root (bool b) leaf = refl
encode-root _ leaf = refl

pub encode_all-IsClear_root : (vs : Elements) → IsClear (encode_all vs 1)
encode_all-IsClear_root no_more = tt
encode_all-IsClear_root (more v vs) = (encode-Starts v 1 (omega arith) (encode_all vs 1)).0

abbrev with_others : Element → Elements → Element
with_others v no_more = v
with_others v (more w ws) = tuple (more v (more w ws))

module _ (m : Memchr) where
  -- The loop over what is left at the root reads all elements.
  unpack_loop-encode_root :
      (vs : Elements) (f : ℕ)
      → AreElements vs
      → 2 * length (encode_all vs 1) + 1 < f
      → unpack_loop m f (encode_all vs 1) 1 false ≡ ok ([], vs)
  unfolding unpack_loop
  unpack_loop-encode_root vs zero h fuel = elim fuel [ ]
  unpack_loop-encode_root no_more (suc f) h fuel = unfold is_end_of_tuple in refl
  unpack_loop-encode_root (more v vs) (suc f) h fuel =
      let first = encode v 1 in
      let others = encode_all vs 1 in
      let sizes = length-append first others in
      let (_, size) = encode-Starts v 1 (omega arith) others in
      rw (
        nonempty (first ++ others) (omega arith),
        unpack_element-encode m v 1 f others h.0 (omega arith) (encode_all-IsClear_root vs)
            (omega arith),
        unpack_loop-encode_root vs f h.1 (omega arith),
      )

  -- After the first value, the rest of a root tuple.
  root_tail-others :
      (vs : Elements) (v : Element) (f : ℕ)
      → AreElements vs
      → 2 * length (encode_all vs 1) + 1 < f
      → root_tail 0 (λ r. unpack_loop m f r 1 false) (encode_all vs 1, v)
        ≡ ok ([], with_others v vs)
  unfolding root_tail
  root_tail-others no_more v f h fuel = unfold is_end_of_tuple in refl
  root_tail-others (more w ws) v f h fuel =
      let first = encode w 1 in
      let others = encode_all ws 1 in
      let (_, size) = encode-Starts w 1 (omega arith) others in
      rw (
        nonempty (first ++ others) (omega (arith, length-append first others)),
        unpack_loop-encode_root (more w ws) f h fuel,
      )

  -- A root tuple whose first value is a tuple is read by the loop of `Vec`, and nothing is left.
  unpack_tuple_first :
      (ws vs : Elements) (f : ℕ)
      → AreElements (more (tuple ws) vs)
      → 2 * length (encode_all (more (tuple ws) vs) 1) + 1 < f
      → unpack_element m (suc f) (encode_all (more (tuple ws) vs) 1) 0
        ≡ ok ([], tuple (more (tuple ws) vs))
  unfolding unpack_element unpack_vec kind_of root_tail is_end_of_tuple
  unpack_tuple_first ws vs f h fuel = rw (unpack_loop-encode_root (more (tuple ws) vs) f h fuel)

  unpack_leaf_first :
      (v : Element) (vs : Elements) (f : ℕ)
      → IsElement v
      → IsLeaf v
      → AreElements vs
      → 2 * length (encode v 1 ++ encode_all vs 1) + 1 < f
      → unpack_element m (suc f) (encode v 1 ++ encode_all vs 1) 0 ≡ ok ([], with_others v vs)
  unpack_leaf_first v vs f h leaf hs fuel = rw (← encode-root v leaf) (
      unpack_element-leaf m v 0 f (encode_all vs 1) h leaf (encode_all-IsClear_root vs)
      ∙ root_tail-others vs v f hs (omega (arith, length-append (encode v 1) (encode_all vs 1))))

  unpack_leaf :
      (v : Element) (f : ℕ)
      → IsElement v
      → IsLeaf v
      → 2 * length (encode v 1) + 1 < f
      → unpack_element m (suc f) (encode v 0) 0 ≡ ok ([], v)
  unpack_leaf v f h leaf fuel =
      let alone = append-nil (encode v 1) in
      rw (encode-root v leaf)
        (rw alone at (unpack_leaf_first v no_more f h leaf tt (rw alone fuel)))

  unpack_element-root :
      (v : Element) (f : ℕ)
      → IsElement v
      → 2 * length (encode v 0) + 1 < f
      → unpack_element m (suc f) (encode v 0) 0 ≡ ok ([], unwrapped v)
  unfolding unpack_element
  unpack_element-root (tuple no_more) f h fuel = refl
  unpack_element-root (tuple (more (tuple ws) no_more)) f h fuel =
      unpack_tuple_first ws no_more f h fuel
  unpack_element-root (tuple (more (tuple ws) (more u us))) f h fuel =
      unpack_tuple_first ws (more u us) f h fuel
  unpack_element-root (tuple (more v no_more)) f h fuel =
      unpack_leaf_first v no_more f h.0 tt tt fuel
  unpack_element-root (tuple (more v (more u us))) f h fuel =
      unpack_leaf_first v (more u us) f h.0 tt h.1 fuel
  unpack_element-root v f h fuel = unpack_leaf v f h tt fuel

  -- What `unpack` reads from what `pack` wrote.
  pub unpack_root-encode :
      (v : Element) → IsElement v → unpack_root m (encode v 0) ≡ ok (unwrapped v)
  unfolding unpack_root
  unpack_root-encode v h =
      let enough : 2 * length (encode v 0) + 3 ≡ suc (2 * length (encode v 0) + 2) = omega arith in
      rw (enough, unpack_element-root v (2 * length (encode v 0) + 2) h (omega arith))
        (unfold is_end_of_tuple in refl)

  -- At the root, an element of Rust's types is packed without an error, and unpacking always ends and
  -- gives it back, but that a tuple of one value comes back as that value (unless it is a tuple).
  pub unpack_root-pack_root :
      (v : Element)
      → IsElement v
      → (bs : List ℕ) × (offset : VersionstampOffset) × (pack_root m v ≡ ok (bs, offset))
        × (unpack_root m bs ≡ ok (unwrapped v))
  unfolding pack_root
  unpack_root-pack_root v h = (
    encode v 0,
    summary (stamps v 0 0) (length (encode v 0)),
    pack_element-encode m v 0 h,
    unpack_root-encode v h,
  )
