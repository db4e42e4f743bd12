-- ===== src/Tuple/Subspace/Range.antt =====
-- The range of a subspace holds the keys of its values.
use foundationdb_rs.Prelude.{
  ℕ, zero, suc, ◌^◌, ◌<◌, ◌≡◌, ◌≢◌, ◌⊎◌, inl, inr, refl, ap, ◌∙◌, List, [], ◌∷◌, ◌++◌, append-nil,
  length, ok, arith, Ordering,
}
use foundationdb_rs.Tuple.Codes.{escape}
use foundationdb_rs.Tuple.Bytes.{Memchr}
use foundationdb_rs.Tuple.Bytes.Escaped.{IsClear}
use foundationdb_rs.Tuple.Element.{Element, Elements, no_more, more}
use foundationdb_rs.Tuple.Element.Encoding.{IsElement, encode, encode_all}
use foundationdb_rs.Tuple.Element.RoundTrip.{encode-Starts}
use foundationdb_rs.Tuple.Compare.{cmp_bytes, cmp_values}
use foundationdb_rs.Tuple.Compare.Bytewise.{compare_self, compare_lt}
use foundationdb_rs.Tuple.Compare.Packed.{encode-cmp_values}
use foundationdb_rs.Tuple.Subspace.{Subspace, range, pack}
use foundationdb_rs.Tuple.Subspace.Keys.{pack_into-encode}

pub cmp_bytes-prefix : (p x y : List ℕ) → cmp_bytes (p ++ x) (p ++ y) ≡ cmp_bytes x y
cmp_bytes-prefix [] x y = refl
cmp_bytes-prefix (b ∷ p) x y = rw (compare_self b) (cmp_bytes-prefix p x y)

pub lowest : (bs : List ℕ) → 0 < length bs → cmp_bytes (0x00 ∷ []) bs ≢ Ordering.gt
lowest [] h = absurd (omega arith)
lowest (zero ∷ []) h = λ e. cc
lowest (zero ∷ c ∷ bs) h = λ e. cc
lowest (suc b ∷ bs) h = rw (compare_lt 0 (suc b) (omega arith)) (λ e. cc)

pub highest : (bs : List ℕ) → 0 < length bs → IsClear bs → cmp_bytes bs (0xff ∷ []) ≡ Ordering.lt
highest [] h clear = absurd (omega arith)
highest (b ∷ bs) h clear = rw (compare_lt b escape clear)

-- What a value's encoding looks like: nothing for the empty tuple, or bytes below the end.
values_bytes :
    (vs : Elements) → (vs ≡ no_more) ⊎ ((0 < length (encode_all vs 1)) × IsClear (encode_all vs 1))
values_bytes no_more = inl refl
values_bytes (more v vs) =
    let (clear, size) = encode-Starts v 1 (omega arith) (encode_all vs 1) in
    inr (length-first (encode v 1) (encode_all vs 1) size, clear)
  where
    length-first : (xs ys : List ℕ) → 0 < length xs → 0 < length (xs ++ ys)
    length-first [] ys h = absurd (omega arith)
    length-first (x ∷ xs) ys h = omega arith

module _ (m : Memchr) where
  -- The key of a value whose encoding has fewer than 2^32 bytes lies between the two ends of the range,
  -- the first inclusive and the second exclusive; only the empty tuple is packed to the bare prefix,
  -- which lies before the range.
  pub pack-in_range :
      (s : Subspace) (v : Element)
      → IsElement v
      → length (encode v 0) < 2 ^ 32
      → (key : List ℕ) × (pack m s v ≡ ok key)
        × (((cmp_values v ≡ no_more) × (key ≡ s.prefix))
            ⊎ ((cmp_bytes (range s).0 key ≢ Ordering.gt)
                × (cmp_bytes key (range s).1 ≡ Ordering.lt)))
  unfolding pack range
  pack-in_range s v h small =
      let whole = (encode-cmp_values v h).0 in
      (
        s.prefix ++ encode v 0,
        rw (pack_into-encode m v s.prefix h),
        elim (values_bytes (cmp_values v)) [
          | inl none_left ↦ inl (
            none_left,
            ap (λ (l : List ℕ). s.prefix ++ l) (whole ∙ ap (λ vs. encode_all vs 1) none_left)
                ∙ append-nil s.prefix,
          )
          | inr (size, clear) ↦ inr (
            rw (cmp_bytes-prefix s.prefix (0x00 ∷ []) (encode v 0), whole) (lowest _ size),
            rw (cmp_bytes-prefix s.prefix (encode v 0) (0xff ∷ []), whole) (highest _ size clear),
          )
        ],
      )
