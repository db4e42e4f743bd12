-- ===== src/Tuple/Compare/Packed.antt =====
-- The byte order of packed elements is the order of the elements.
use foundationdb_rs.Prelude.{
  ℕ, suc, ◌<◌, ◌≡◌, inl, inr, refl, ap, sym, ◌∙◌, List, [], ◌∷◌, ◌++◌, append_assoc, append-nil,
  true, false, Bool-cases, ltb, lt→ltb, length, length-append, ok, arith,
}
use foundationdb_rs.Tuple.Codes.{nil_code}
use foundationdb_rs.Tuple.Bytes.Escaped.{escaped, IsClear}
use foundationdb_rs.Tuple.Words.{length-be_bytes}
use foundationdb_rs.Tuple.Floats.{fx_to_be_bytes}
use foundationdb_rs.Tuple.Element.{
  Element, Elements, nil, bytes, string, tuple, int, float, double, bool, versionstamp, no_more,
  more, pack_element, pack_root,
}
use foundationdb_rs.Tuple.Offset.{VersionstampOffset}
use foundationdb_rs.Tuple.Bytes.{Memchr}
use foundationdb_rs.Tuple.Element.Encoding.{
  IsElement, AreElements, encode, encode_all, stamps, summary, pack_element-encode,
}
use foundationdb_rs.Tuple.Element.RoundTrip.{
  encode-Starts, encode-not_end, IsLeaf, encode_all-IsClear,
}
use foundationdb_rs.Tuple.Element.Root.{encode_all-IsClear_root, encode-root}
use foundationdb_rs.Tuple.Compare.{
  then_with, cmp_bytes, code, cmp_same, cmp_elements, cmp_element, cmp_values, cmp_at_root,
}
use foundationdb_rs.Tuple.Compare.Bytewise.{then_with_assoc, cmp_bytes-append, cmp_bytes-escaped}
use foundationdb_rs.Tuple.Compare.Numbers.{cmp_bytes-ix_bytes}
use foundationdb_rs.Tuple.Compare.FirstBytes.{encode-Announces, by_code, end_first, end_last}

mutual
  unfolding code cmp_same fx_to_be_bytes

  same_code :
      (a b : Element) (d : ℕ) (r s : List ℕ)
      → IsElement a
      → IsElement b
      → 0 < d
      → IsClear r
      → IsClear s
      → code a ≡ code b
      → cmp_bytes (encode a d ++ r) (encode b d ++ s) ≡ then_with (cmp_same a b) (cmp_bytes r s)
  same_code nil nil d r s ha hb p cr cs same = elim (Bool-cases (ltb 1 d)) [
    | inl deep ↦ rw deep
    | inr flat ↦ rw flat
  ]
  same_code (bytes v) (bytes w) d r s ha hb p cr cs same =
      rw (append_assoc (escaped v) (nil_code ∷ []) r, append_assoc (escaped w) (nil_code ∷ []) s)
        (cmp_bytes-escaped v w r s cr cs)
  same_code (string v) (string w) d r s ha hb p cr cs same =
      rw (append_assoc (escaped v) (nil_code ∷ []) r, append_assoc (escaped w) (nil_code ∷ []) s)
        (cmp_bytes-escaped v w r s cr cs)
  same_code (tuple vs) (tuple ws) d r s ha hb p cr cs same =
      let all = encode_all vs (suc d) in
      let all' = encode_all ws (suc d) in
      rw (lt→ltb 0 d p) (
        rw (append_assoc all (nil_code ∷ []) r, append_assoc all' (nil_code ∷ []) s)
          (all_same vs ws (suc d) r s ha hb (omega arith) cr cs))
  same_code (int i) (int j) d r s ha hb p cr cs same = cmp_bytes-ix_bytes i j r s ha hb
  same_code (float x) (float y) d r s ha hb p cr cs same =
      cmp_bytes-append (fx_to_be_bytes 4 x) (fx_to_be_bytes 4 y) r s
        (length-be_bytes 4 _ ∙ sym (length-be_bytes 4 _))
  same_code (double x) (double y) d r s ha hb p cr cs same =
      cmp_bytes-append (fx_to_be_bytes 8 x) (fx_to_be_bytes 8 y) r s
        (length-be_bytes 8 _ ∙ sym (length-be_bytes 8 _))
  same_code (bool true) (bool true) d r s ha hb p cr cs same = refl
  same_code (bool false) (bool false) d r s ha hb p cr cs same = refl
  same_code (versionstamp v) (versionstamp w) d r s ha hb p cr cs same =
      cmp_bytes-append v w r s (ha.1 ∙ sym hb.1)
  same_code _ _ d r s ha hb p cr cs same = absurd (ground arith)

  all_same :
      (vs ws : Elements) (d : ℕ) (r s : List ℕ)
      → AreElements vs
      → AreElements ws
      → 1 < d
      → IsClear r
      → IsClear s
      → cmp_bytes (encode_all vs d ++ nil_code ∷ r) (encode_all ws d ++ nil_code ∷ s)
        ≡ then_with (cmp_elements vs ws) (cmp_bytes r s)
  all_same no_more no_more d r s hv hw p cr cs = refl
  all_same no_more (more w ws) d r s hv hw p cr cs =
      let others = encode_all ws d ++ nil_code ∷ s in
      rw (append_assoc (encode w d) (encode_all ws d) (nil_code ∷ s)) (
        end_first (encode w d ++ others) r (encode-not_end w d others p)
          (omega
            (arith, (encode-Starts w d (omega arith) others).1, length-append (encode w d) others))
          cr)
  all_same (more v vs) no_more d r s hv hw p cr cs =
      let others = encode_all vs d ++ nil_code ∷ r in
      rw (append_assoc (encode v d) (encode_all vs d) (nil_code ∷ r)) (
        end_last (encode v d ++ others) s (encode-not_end v d others p)
          (omega
            (arith, (encode-Starts v d (omega arith) others).1, length-append (encode v d) others))
          cs)
  all_same (more v vs) (more w ws) d r s hv hw p cr cs =
      let others = encode_all vs d ++ nil_code ∷ r in
      let others' = encode_all ws d ++ nil_code ∷ s in
      rw
        (
          append_assoc (encode v d) (encode_all vs d) (nil_code ∷ r),
          append_assoc (encode w d) (encode_all ws d) (nil_code ∷ s),
          by_code v w d others others' (cmp_bytes others others') (omega arith) (
              same_code v w d others others' hv.0 hw.0 (omega arith) (encode_all-IsClear vs d r p)
                (encode_all-IsClear ws d s p)),
          all_same vs ws d r s hv.1 hw.1 p cr cs,
        )
        (sym (then_with_assoc _ (cmp_elements vs ws) (cmp_bytes r s)))

-- Inside a tuple: the order of the values, and then that of the bytes that follow.
pub cmp_bytes-encode :
    (a b : Element) (d : ℕ) (r s : List ℕ)
    → IsElement a
    → IsElement b
    → 0 < d
    → IsClear r
    → IsClear s
    → cmp_bytes (encode a d ++ r) (encode b d ++ s) ≡ then_with (cmp_element a b) (cmp_bytes r s)
unfolding cmp_element
cmp_bytes-encode a b d r s ha hb p cr cs =
    by_code a b d r s (cmp_bytes r s) p (same_code a b d r s ha hb p cr cs)

starts_bytes : (v : Element) (r : List ℕ) → (c : ℕ) × (t : List ℕ) × (encode v 1 ++ r ≡ c ∷ t)
starts_bytes v r =
    let (c, t, whole, at) = encode-Announces v 1 (omega arith) in (c, t ++ r, rw whole)

-- The values of two tuples at the root.
cmp_bytes-encode_all :
    (vs ws : Elements)
    → AreElements vs
    → AreElements ws
    → cmp_bytes (encode_all vs 1) (encode_all ws 1) ≡ cmp_elements vs ws
unfolding cmp_same cmp_element
cmp_bytes-encode_all no_more no_more hv hw = refl
cmp_bytes-encode_all no_more (more w ws) hv hw =
    let (c, t, whole) = starts_bytes w (encode_all ws 1) in rw whole
cmp_bytes-encode_all (more v vs) no_more hv hw =
    let (c, t, whole) = starts_bytes v (encode_all vs 1) in rw whole
cmp_bytes-encode_all (more v vs) (more w ws) hv hw =
    cmp_bytes-encode v w 1 (encode_all vs 1) (encode_all ws 1) hv.0 hw.0 (omega arith)
      (encode_all-IsClear_root vs) (encode_all-IsClear_root ws)
    ∙ ap (then_with (cmp_element v w)) (cmp_bytes-encode_all vs ws hv.1 hw.1)

leaf_values :
    (v : Element)
    → IsElement v
    → IsLeaf v
    → (encode v 0 ≡ encode_all (more v no_more) 1) × AreElements (more v no_more)
leaf_values v h leaf = (encode-root v leaf ∙ sym (append-nil (encode v 1)), (h, tt))

-- At the root a value is written as the tuple that it is compared as.
pub encode-cmp_values :
    (v : Element)
    → IsElement v
    → (encode v 0 ≡ encode_all (cmp_values v) 1) × AreElements (cmp_values v)
unfolding cmp_values
encode-cmp_values (tuple vs) h = (refl, h)
encode-cmp_values v h = leaf_values v h tt

-- The bytes that `pack` writes for two values stand in the order of the values.
pub cmp_bytes-encode_root :
    (a b : Element)
    → IsElement a
    → IsElement b
    → cmp_bytes (encode a 0) (encode b 0) ≡ cmp_at_root a b
unfolding cmp_at_root
cmp_bytes-encode_root a b ha hb =
    let (same_a, values_a) = encode-cmp_values a ha in
    let (same_b, values_b) = encode-cmp_values b hb in
    rw (same_a, same_b) (cmp_bytes-encode_all (cmp_values a) (cmp_values b) values_a values_b)

module _ (m : Memchr) where
  -- Two elements of Rust's types are packed at the root without an error, and the lexicographic order
  -- of the bytes, which is the order of keys in the database, is the order of the elements.
  pub cmp_bytes-pack_root :
      (a b : Element)
      → IsElement a
      → IsElement b
      → (xs ys : List ℕ) × (o p : VersionstampOffset) × (pack_root m a ≡ ok (xs, o))
        × (pack_root m b ≡ ok (ys, p))
        × (cmp_bytes xs ys ≡ cmp_at_root a b)
  unfolding pack_root
  cmp_bytes-pack_root a b ha hb = (
    encode a 0,
    encode b 0,
    summary (stamps a 0 0) (length (encode a 0)),
    summary (stamps b 0 0) (length (encode b 0)),
    pack_element-encode m a 0 ha,
    pack_element-encode m b 0 hb,
    cmp_bytes-encode_root a b ha hb,
  )

  -- Two elements of Rust's types are packed inside a tuple without an error, and whatever follows
  -- them, but for an escape byte in front, their bytes stand in the order of the elements, and where
  -- these are equal in the order of what follows.
  pub cmp_bytes-pack_element :
      (a b : Element) (d : ℕ) (r s : List ℕ)
      → IsElement a
      → IsElement b
      → 0 < d
      → IsClear r
      → IsClear s
      → (xs ys : List ℕ) × (o p : VersionstampOffset) × (pack_element m a d ≡ ok (xs, o))
        × (pack_element m b d ≡ ok (ys, p))
        × (cmp_bytes (xs ++ r) (ys ++ s) ≡ then_with (cmp_element a b) (cmp_bytes r s))
  cmp_bytes-pack_element a b d r s ha hb positive cr cs = (
    encode a d,
    encode b d,
    summary (stamps a d 0) (length (encode a d)),
    summary (stamps b d 0) (length (encode b d)),
    pack_element-encode m a d ha,
    pack_element-encode m b d hb,
    cmp_bytes-encode a b d r s ha hb positive cr cs,
  )
