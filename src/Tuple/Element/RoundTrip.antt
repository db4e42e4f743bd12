-- ===== src/Tuple/Element/RoundTrip.antt =====
-- An element is read back from its encoding.
use foundationdb_rs.Prelude.{
  ℕ, zero, suc, ◌+◌, ◌-◌, ◌*◌, ◌≤◌, ◌<◌, ◌≡◌, refl, sym, ◌∙◌, true, false, List, [], ◌∷◌, ◌++◌,
  append_assoc, ltb, leb, ◌==◌, length, length-append, lt→ltb, ok, ℤ, pos, negsuc, arith,
  Bool-cases, inl, inr,
}
use foundationdb_rs.Tuple.Codes.{nil_code, escape, intzero, float_code, double_code}
use foundationdb_rs.Tuple.Bytes.{Memchr, Parsed}
use foundationdb_rs.Tuple.Bytes.Escaped.{escaped, IsClear, is_escape-clear, parse_slice-escaped}
use foundationdb_rs.Tuple.Words.{be_bytes, byte_len, byte_len-le}
use foundationdb_rs.Tuple.Integers.{unpack_int, max_size}
use foundationdb_rs.Tuple.Integers.Unsigned.{parse_bytes-append}
use foundationdb_rs.Tuple.Integers.Signed.{ix_bytes, unpack_int-ix_bytes, complement}
use foundationdb_rs.Tuple.Floats.{unpack_fx-order_bits}
use foundationdb_rs.Tuple.Versionstamp.{unpack_versionstamp}
use foundationdb_rs.Tuple.Element.{
  Element, Elements, nil, bytes, string, tuple, int, float, double, bool, versionstamp, no_more,
  more, of_int, kind_of, is_end_of_tuple, pack_element, unpack_element, unpack_loop, unpack_vec,
  unpack_none, unpack_bool, unpack_bytes, unpack_str, root_tail,
}
use foundationdb_rs.Tuple.Offset.{VersionstampOffset}
use foundationdb_rs.Tuple.Element.Encoding.{
  IsElement, AreElements, encode, encode_all, stamps, summary, pack_element-encode,
}

-- The code of an integer of eight bytes announces an integer.
abbrev IsIntCode : List ℕ → Type 0
IsIntCode bs = (c : ℕ) × (t : List ℕ) × (bs ≡ c ∷ t) × (kind_of c ≡ of_int) × (0 < c) × (c < escape)

kind_of-int : (c : ℕ) → intzero - 8 ≤ c → c ≤ intzero + 8 → kind_of c ≡ of_int
unfolding kind_of
kind_of-int c low high = ground arith

pub ix_bytes-IsIntCode : (i : ℤ) → IsIntCode (ix_bytes 8 i)
ix_bytes-IsIntCode (pos u) =
    let n = byte_len 8 u in
    let fits : n ≤ 8 = byte_len-le 8 u in
    let short : leb n max_size ≡ true = ground arith in
    (
      intzero + n,
      be_bytes n u,
      rw short,
      kind_of-int (intzero + n) (omega arith) (omega arith),
      omega arith,
      omega arith,
    )
ix_bytes-IsIntCode (negsuc k) =
    let n = byte_len 8 (k + 1) in
    let fits : n ≤ 8 = byte_len-le 8 (k + 1) in
    let short : leb n max_size ≡ true = ground arith in
    (
      intzero - n,
      be_bytes n (complement n (k + 1)),
      rw short,
      kind_of-int (intzero - n) (omega arith) (omega arith),
      omega arith,
      omega arith,
    )

-- No element of a tuple begins with an escape, or is empty.
abbrev Starts : List ℕ → Type 0
Starts bs = (rest : List ℕ) → IsClear (bs ++ rest) × (0 < length bs)

pub encode-Starts : (v : Element) (d : ℕ) → 0 < d → Starts (encode v d)
encode-Starts nil d h rest = elim (Bool-cases (ltb 1 d)) [
  | inl deep ↦ rw deep (omega arith, omega arith)
  | inr flat ↦ rw flat (omega arith, omega arith)
]
encode-Starts (bytes v) d h rest = (omega arith, omega arith)
encode-Starts (string v) d h rest = (omega arith, omega arith)
encode-Starts (tuple vs) d h rest = rw (lt→ltb 0 d h) (omega arith, omega arith)
encode-Starts (int i) d h rest =
    let (c, t, whole, kind, positive, clear) = ix_bytes-IsIntCode i in rw whole (clear, omega arith)
encode-Starts (float f) d h rest = (omega arith, omega arith)
encode-Starts (double f) d h rest = (omega arith, omega arith)
encode-Starts (bool true) d h rest = (omega arith, omega arith)
encode-Starts (bool false) d h rest = (omega arith, omega arith)
encode-Starts (versionstamp v) d h rest = (omega arith, omega arith)

-- Inside a nested tuple, no element begins like the end of the tuple.
pub encode-not_end :
    (v : Element) (d : ℕ) (rest : List ℕ)
    → 1 < d
    → is_end_of_tuple (encode v d ++ rest) true ≡ false
unfolding is_end_of_tuple
encode-not_end nil d rest h = rw (lt→ltb 1 d h)
encode-not_end (tuple vs) d rest h = rw (lt→ltb 0 d (omega arith))
encode-not_end (int i) d rest h =
    let (c, t, whole, kind, positive, clear) = ix_bytes-IsIntCode i in
    let other : (c == nil_code) ≡ false = ground arith in rw whole (rw other)
encode-not_end (bool true) d rest h = refl
encode-not_end _ d rest h = refl

pub encode_all-IsClear :
    (vs : Elements) (d : ℕ) (rest : List ℕ) → 1 < d → IsClear (encode_all vs d ++ nil_code ∷ rest)
encode_all-IsClear no_more d rest h = omega arith
encode_all-IsClear (more v vs) d rest h =
    rw (append_assoc (encode v d) (encode_all vs d) (nil_code ∷ rest))
      (encode-Starts v d (omega arith) (encode_all vs d ++ nil_code ∷ rest)).0

-- Inside a tuple nothing is gathered.
root_tail_inner :
    (d : ℕ) (others : List ℕ → Parsed Elements) (rest : List ℕ) (v : Element)
    → 0 < d
    → root_tail d others (rest, v) ≡ ok (rest, v)
unfolding root_tail
root_tail_inner d others rest v h = let inner : (d == 0) ≡ false = ground arith in rw inner

-- Every value but a tuple.
abbrev pub IsLeaf : Element → Type 0
IsLeaf (tuple vs) = ⊥
IsLeaf nil = Unit
IsLeaf (bytes v) = Unit
IsLeaf (string v) = Unit
IsLeaf (int i) = Unit
IsLeaf (float f) = Unit
IsLeaf (double f) = Unit
IsLeaf (bool b) = Unit
IsLeaf (versionstamp v) = Unit

module _ (m : Memchr) where
  unpack_element-int :
      (d f c : ℕ) (t rest : List ℕ) (i : ℤ)
      → kind_of c ≡ of_int
      → unpack_int 8 8 (c ∷ t) ≡ ok (rest, i)
      → unpack_element m (suc f) (c ∷ t) d
        ≡ root_tail d (λ r. unpack_loop m f r (suc d) false) (rest, int i)
  unfolding unpack_element
  unpack_element-int d f c t rest i kind back = rw (kind, back)

  -- At any depth, also at the root, the first value is read and handed to the end of `unpack`.
  pub unpack_element-leaf :
      (v : Element) (d f : ℕ) (rest : List ℕ)
      → IsElement v
      → IsLeaf v
      → IsClear rest
      → unpack_element m (suc f) (encode v d ++ rest) d
        ≡ root_tail d (λ r. unpack_loop m f r (suc d) false) (rest, v)
  unfolding unpack_element unpack_none unpack_bool unpack_bytes unpack_str unpack_versionstamp
      kind_of
  unpack_element-leaf (tuple vs) d f rest h leaf clear = absurd leaf
  unpack_element-leaf nil d f rest h leaf clear = elim (Bool-cases (ltb 1 d)) [
    | inl deep ↦ rw deep (rw deep)
    | inr flat ↦ rw flat (rw flat)
  ]
  unpack_element-leaf (bytes v) d f rest h leaf clear =
      rw (append_assoc (escaped v) (nil_code ∷ []) rest, parse_slice-escaped m v rest clear)
  unpack_element-leaf (string v) d f rest h leaf clear =
      rw (append_assoc (escaped v) (nil_code ∷ []) rest, parse_slice-escaped m v rest clear, h.1)
  unpack_element-leaf (int i) d f rest h leaf clear =
      let (c, t, whole, kind, positive, small) = ix_bytes-IsIntCode i in
      let back = unpack_int-ix_bytes 8 8 i rest (omega arith) (omega arith) h in
      rw whole (unpack_element-int d f c (t ++ rest) rest i kind (rw whole at back))
  unpack_element-leaf (float x) d f rest h leaf clear =
      rw (unpack_fx-order_bits 4 float_code x rest (omega arith) h)
  unpack_element-leaf (double x) d f rest h leaf clear =
      rw (unpack_fx-order_bits 8 double_code x rest (omega arith) h)
  unpack_element-leaf (bool true) d f rest h leaf clear = refl
  unpack_element-leaf (bool false) d f rest h leaf clear = refl
  unpack_element-leaf (versionstamp v) d f rest h leaf clear =
      rw (parse_bytes-append 12 v rest (sym h.1))

  inner_leaf :
      (v : Element) (d f : ℕ) (rest : List ℕ)
      → IsElement v
      → IsLeaf v
      → 0 < d
      → IsClear rest
      → unpack_element m (suc f) (encode v d ++ rest) d ≡ ok (rest, v)
  inner_leaf v d f rest h leaf p clear =
      unpack_element-leaf v d f rest h leaf clear ∙ root_tail_inner d _ rest v p

  mutual
    unfolding unpack_element unpack_vec kind_of is_end_of_tuple

    unpack_element-encode_lem :
        (v : Element) (d f : ℕ) (rest : List ℕ)
        → IsElement v
        → 0 < d
        → IsClear rest
        → 2 * length (encode v d) < f
        → unpack_element m f (encode v d ++ rest) d ≡ ok (rest, v)
    unpack_element-encode_lem v d zero rest h p clear fuel = elim fuel [ ]
    unpack_element-encode_lem (tuple vs) d (suc f) rest h p clear fuel =
        let inner = lt→ltb 0 d p in
        rw inner (
          rw
            (
              append_assoc (encode_all vs (suc d)) (nil_code ∷ []) rest,
              inner,
              unpack_loop-encode_lem vs (suc d) f rest h (omega arith) clear (
                  let size : length (encode (tuple vs) d) ≡ length (encode_all vs (suc d)) + 2 =
                    rw inner
                      (omega (arith, length-append (encode_all vs (suc d)) (nil_code ∷ []))) in
                  omega arith),
            )
            (root_tail_inner d _ rest (tuple vs) p))
    unpack_element-encode_lem v d (suc f) rest h p clear fuel = inner_leaf v d f rest h tt p clear

    unpack_loop-encode_lem :
        (vs : Elements) (d f : ℕ) (rest : List ℕ)
        → AreElements vs
        → 1 < d
        → IsClear rest
        → 2 * length (encode_all vs d) + 1 < f
        → unpack_loop m f (encode_all vs d ++ nil_code ∷ rest) d true ≡ ok (nil_code ∷ rest, vs)
    unpack_loop-encode_lem vs d zero rest h p clear fuel = elim fuel [ ]
    unpack_loop-encode_lem no_more d (suc f) rest h p clear fuel = rw (is_escape-clear rest clear)
    unpack_loop-encode_lem (more v vs) d (suc f) rest h p clear fuel =
        let first = encode v d in
        let others = encode_all vs d in
        let begins = encode-not_end v d (others ++ nil_code ∷ rest) p in
        let (_, size) = encode-Starts v d (omega arith) (others ++ nil_code ∷ rest) in
        let sizes = length-append first others in
        rw (
          append_assoc first others (nil_code ∷ rest),
          begins,
          unpack_element-encode_lem v d f (others ++ nil_code ∷ rest) h.0 (omega arith)
              (encode_all-IsClear vs d rest p) (omega arith),
          unpack_loop-encode_lem vs d f rest h.1 p clear (omega arith),
        )

  -- Inside a tuple, an element is read back from its encoding; a byte that is no escape may follow.
  pub unpack_element-encode :
      (v : Element) (d f : ℕ) (rest : List ℕ)
      → IsElement v
      → 0 < d
      → IsClear rest
      → 2 * length (encode v d) < f
      → unpack_element m f (encode v d ++ rest) d ≡ ok (rest, v)
  unpack_element-encode = unpack_element-encode_lem

  -- Inside a tuple, at any depth above 0, an element of Rust's types is packed without an error, and
  -- unpacking with two units of fuel for a byte gives it back; what follows is left where it does not
  -- begin with an escape byte.
  pub unpack_element-pack_element :
      (v : Element) (d f : ℕ) (rest : List ℕ)
      → IsElement v
      → 0 < d
      → IsClear rest
      → 2 * length (encode v d) < f
      → (bs : List ℕ) × (offset : VersionstampOffset) × (pack_element m v d ≡ ok (bs, offset))
        × (unpack_element m f (bs ++ rest) d ≡ ok (rest, v))
  unpack_element-pack_element v d f rest h p clear fuel = (
    encode v d,
    summary (stamps v d 0) (length (encode v d)),
    pack_element-encode m v d h,
    unpack_element-encode v d f rest h p clear fuel,
  )
