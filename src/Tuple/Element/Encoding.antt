-- ===== src/Tuple/Element/Encoding.antt =====
-- The bytes of an element by a plain recursion, the elements that Rust's types allow, and the offset
-- that `pack` returns: it is told from the places of the incomplete versionstamps.
use foundationdb_rs.Prelude.{
  ℕ, suc, ◌+◌, ◌%◌, ◌^◌, ◌<◌, ◌≡◌, refl, ap, ap₂, sym, ◌∙◌, true, List, [], ◌∷◌, ◌++◌, ltb,
  if◌then◌else◌, length, length-append, append-nil, append_assoc, All, ok, arith, Bool-cases, inl,
  inr,
}
use native.Mathlib.Nat.{mod-eq_of_lt}
use foundationdb_rs.Tuple.Codes.{
  nil_code, bytes_code, string_code, nested_code, float_code, double_code, false_code, true_code,
  versionstamp_code, escape,
}
use foundationdb_rs.Tuple.Offset.{VersionstampOffset, add_size, add_offset}
use foundationdb_rs.Tuple.Bytes.{IsByte, Memchr, Packed}
use foundationdb_rs.Tuple.Bytes.Escaped.{escaped, write_bytes-escaped}
use foundationdb_rs.Tuple.Utf8.{is_utf8}
use foundationdb_rs.Tuple.Integers.Signed.{IsSigned, ix_bytes, length-ix_bytes, pack_ix-ix_bytes}
use foundationdb_rs.Tuple.Words.{length-be_bytes}
use foundationdb_rs.Tuple.Floats.{order_bits, fx_to_be_bytes, pack_fx}
use foundationdb_rs.Tuple.Versionstamp.{is_complete, pack_versionstamp}
use foundationdb_rs.Tuple.Element.{
  Element, Elements, nil, bytes, string, tuple, int, float, double, bool, versionstamp, no_more,
  more, pack_none, pack_bool, pack_bytes, pack_str, pack_element, pack_elements,
}

-- The values of Rust's types; a byte string that does not fit in a `u32` cannot be packed.
abbrev mutual
  pub IsElement : Element → Type 0
  IsElement nil = Unit
  IsElement (bytes v) = All IsByte v × (length v < 2 ^ 32)
  IsElement (string v) = All IsByte v × (is_utf8 v ≡ true) × (length v < 2 ^ 32)
  IsElement (tuple vs) = AreElements vs
  IsElement (int i) = IsSigned 64 i
  IsElement (float f) = f < 2 ^ 32
  IsElement (double f) = f < 2 ^ 64
  IsElement (bool b) = Unit
  IsElement (versionstamp v) = All IsByte v × (length v ≡ 12)

  pub AreElements : Elements → Type 0
  AreElements no_more = Unit
  AreElements (more v vs) = IsElement v × AreElements vs

abbrev mutual
  pub encode : Element → ℕ → List ℕ
  encode nil depth = if ltb 1 depth then nil_code ∷ escape ∷ [] else nil_code ∷ []
  encode (bytes v) depth = bytes_code ∷ (escaped v ++ nil_code ∷ [])
  encode (string v) depth = string_code ∷ (escaped v ++ nil_code ∷ [])
  encode (tuple vs) depth =
      if ltb 0 depth
      then nested_code ∷ (encode_all vs (suc depth) ++ nil_code ∷ [])
      else encode_all vs (suc depth)
  encode (int i) depth = ix_bytes 8 i
  encode (float f) depth = float_code ∷ fx_to_be_bytes 4 f
  encode (double f) depth = double_code ∷ fx_to_be_bytes 8 f
  encode (bool b) depth = (if b then true_code else false_code) ∷ []
  encode (versionstamp v) depth = versionstamp_code ∷ v

  pub encode_all : Elements → ℕ → List ℕ
  encode_all no_more depth = []
  encode_all (more v vs) depth = encode v depth ++ encode_all vs depth

-- Where the bytes of the incomplete versionstamps stand, counted from `at`.
abbrev mutual
  pub stamps : Element → ℕ → ℕ → List ℕ
  stamps (versionstamp v) depth at = if is_complete v then [] else suc at ∷ []
  stamps (tuple vs) depth at = stamps_all vs (suc depth) (if ltb 0 depth then suc at else at)
  stamps nil depth at = []
  stamps (bytes v) depth at = []
  stamps (string v) depth at = []
  stamps (int i) depth at = []
  stamps (float f) depth at = []
  stamps (double f) depth at = []
  stamps (bool b) depth at = []

  pub stamps_all : Elements → ℕ → ℕ → List ℕ
  stamps_all no_more depth at = []
  stamps_all (more v vs) depth at =
      stamps v depth at ++ stamps_all vs depth (at + length (encode v depth))

-- What an offset says of the places of the stamps in that many bytes.
abbrev pub summary : List ℕ → ℕ → VersionstampOffset
summary [] size = VersionstampOffset.none (size % 2 ^ 32)
summary (k ∷ []) size = VersionstampOffset.one_incomplete (k % 2 ^ 32)
summary (k ∷ l ∷ ks) size = VersionstampOffset.multiple_incomplete

abbrev pub shift : ℕ → List ℕ → List ℕ
shift at [] = []
shift at (k ∷ ks) = (at + k) ∷ shift at ks

shift-append : (at : ℕ) (ks js : List ℕ) → shift at (ks ++ js) ≡ shift at ks ++ shift at js
shift-append at [] js = refl
shift-append at (k ∷ ks) js = ap (λ (l : List ℕ). (at + k) ∷ l) (shift-append at ks js)

mutual
  pub stamps-shift :
      (v : Element) (depth a b : ℕ) → stamps v depth (a + b) ≡ shift a (stamps v depth b)
  stamps-shift (versionstamp v) depth a b = elim (Bool-cases (is_complete v)) [
    | inl done ↦ rw done
    | inr open_stamp ↦ rw open_stamp (ap (λ (n : ℕ). n ∷ []) (omega arith))
  ]
  stamps-shift (tuple vs) depth a b = elim (Bool-cases (ltb 0 depth)) [
    | inl inner ↦ rw inner (
        ap (λ (n : ℕ). stamps_all vs (suc depth) n) {x = suc (a + b)} {y = a + suc b} (omega arith)
        ∙ stamps_all-shift vs (suc depth) a (suc b))
    | inr root ↦ rw root (stamps_all-shift vs (suc depth) a b)
  ]
  stamps-shift nil depth a b = refl
  stamps-shift (bytes v) depth a b = refl
  stamps-shift (string v) depth a b = refl
  stamps-shift (int i) depth a b = refl
  stamps-shift (float f) depth a b = refl
  stamps-shift (double f) depth a b = refl
  stamps-shift (bool v) depth a b = refl

  pub stamps_all-shift :
      (vs : Elements) (depth a b : ℕ)
      → stamps_all vs depth (a + b) ≡ shift a (stamps_all vs depth b)
  stamps_all-shift no_more depth a b = refl
  stamps_all-shift (more v vs) depth a b =
      let n = length (encode v depth) in
      ap₂ (λ (l : List ℕ) (r : List ℕ). l ++ r) (stamps-shift v depth a b)
        (ap (λ (k : ℕ). stamps_all vs depth k) {x = a + b + n} {y = a + (b + n)} (omega arith)
          ∙ stamps_all-shift vs depth a (b + n))
      ∙ sym (shift-append a (stamps v depth b) (stamps_all vs depth (b + n)))

pub add_offset-summary :
    (ks js : List ℕ) (a b : ℕ)
    → add_offset (summary ks a) (summary js b) ≡ summary (ks ++ shift a js) (a + b)
unfolding add_offset
add_offset-summary [] [] a b = ap VersionstampOffset.none (omega arith)
add_offset-summary [] (j ∷ []) a b = ap VersionstampOffset.one_incomplete (omega arith)
add_offset-summary [] (j ∷ i ∷ js) a b = refl
add_offset-summary (k ∷ []) [] a b = refl
add_offset-summary (k ∷ []) (j ∷ []) a b = refl
add_offset-summary (k ∷ []) (j ∷ i ∷ js) a b = refl
add_offset-summary (k ∷ l ∷ ks) js a b = refl

add_size-summary : (ks : List ℕ) (a b : ℕ) → add_size (summary ks a) b ≡ summary ks (a + b)
unfolding add_size
add_size-summary [] a b = ap VersionstampOffset.none (omega arith)
add_size-summary (k ∷ []) a b = refl
add_size-summary (k ∷ l ∷ ks) a b = refl

summary_of_bytes :
    (code : ℕ) (v : List ℕ)
    → let written = escaped v ++ nil_code ∷ [] in
      ◌≡◌ {A = Packed}
        (ok (code ∷ written, VersionstampOffset.none ((length written + 1) % 2 ^ 32)))
        (ok (code ∷ written, VersionstampOffset.none (suc (length written) % 2 ^ 32)))
summary_of_bytes code v =
    ap (λ (n : ℕ). ok (code ∷ (escaped v ++ nil_code ∷ []), VersionstampOffset.none (n % 2 ^ 32)))
      (omega arith)

module _ (m : Memchr) where
  mutual
    unfolding pack_element pack_none pack_bool pack_bytes pack_str pack_fx fx_to_be_bytes
        pack_versionstamp

    pack_element-encode_lem :
        (v : Element) (depth : ℕ)
        → IsElement v
        → pack_element m v depth
          ≡ ok (encode v depth, summary (stamps v depth 0) (length (encode v depth)))
    pack_element-encode_lem nil depth h = elim (Bool-cases (ltb 1 depth)) [
      | inl deep ↦ rw deep
      | inr flat ↦ rw flat
    ]
    pack_element-encode_lem (bytes v) depth h =
        rw (write_bytes-escaped m v h.1) (summary_of_bytes bytes_code v)
    pack_element-encode_lem (string v) depth h =
        rw (write_bytes-escaped m v h.2) (summary_of_bytes string_code v)
    pack_element-encode_lem (int i) depth h =
        rw (pack_ix-ix_bytes 8 i (omega arith) (omega arith) h) (
          ap (λ (n : ℕ). ok (ix_bytes 8 i, VersionstampOffset.none n))
            (sym (mod-eq_of_lt (omega (arith, length-ix_bytes 8 i)))))
    pack_element-encode_lem (float f) depth h = rw (length-be_bytes 4 (order_bits 4 f))
    pack_element-encode_lem (double f) depth h = rw (length-be_bytes 8 (order_bits 8 f))
    pack_element-encode_lem (bool b) depth h = refl
    pack_element-encode_lem (versionstamp v) depth h = elim (Bool-cases (is_complete v)) [
      | inl done ↦ rw (done, h.1)
      | inr open_stamp ↦ rw open_stamp
    ]
    pack_element-encode_lem (tuple vs) depth h = elim (Bool-cases (ltb 0 depth)) [
      | inl inner ↦
          let all = encode_all vs (suc depth) in
          let places = stamps_all vs (suc depth) 1 in
          rw
            (
              inner,
              add_size-summary [] 0 1,
              pack_elements-encode_lem vs (suc depth) [] 1 h,
              add_size-summary places (1 + length all) 1,
            )
            (ap (λ (n : ℕ). ok (nested_code ∷ (all ++ nil_code ∷ []), summary places n))
              (omega (arith, length-append all (nil_code ∷ []))))
      | inr root ↦ rw root (
          pack_elements-encode_lem vs (suc depth) [] 0 h
          ∙ ap (λ (n : ℕ). ok (encode_all vs (suc depth), summary (stamps_all vs (suc depth) 0) n))
              {x = 0 + length (encode_all vs (suc depth))} {y = length (encode_all vs (suc depth))}
              (omega arith))
    ]

    pack_elements-encode_lem :
        (vs : Elements) (depth : ℕ) (ks : List ℕ) (at : ℕ)
        → AreElements vs
        → pack_elements m vs depth (summary ks at)
          ≡ ok (
            encode_all vs depth,
            summary (ks ++ stamps_all vs depth at) (at + length (encode_all vs depth)),
          )
    pack_elements-encode_lem no_more depth ks at h =
        ap₂ (λ (l : List ℕ) (n : ℕ). ok ([], summary l n)) (sym (append-nil ks)) (omega arith)
    pack_elements-encode_lem (more v vs) depth ks at h =
        let first = encode v depth in
        let moved : shift at (stamps v depth 0) ≡ stamps v depth at =
          sym (stamps-shift v depth at 0)
          ∙ ap (λ (n : ℕ). stamps v depth n) {x = at + 0} {y = at} (omega arith) in
        rw
          (
            pack_element-encode_lem v depth h.0,
            add_offset-summary ks (stamps v depth 0) at (length first),
            moved,
            pack_elements-encode_lem vs depth (ks ++ stamps v depth at) (at + length first) h.1,
          )
          (ap₂ (λ (l : List ℕ) (n : ℕ). ok (first ++ encode_all vs depth, summary l n))
            (append_assoc ks (stamps v depth at) (stamps_all vs depth (at + length first)))
            (omega (arith, length-append first (encode_all vs depth))))

  -- A value of Rust's types is packed without an error, to its encoding; the offset summarises the
  -- places of the incomplete versionstamps in it.
  pub pack_element-encode :
      (v : Element) (depth : ℕ)
      → IsElement v
      → pack_element m v depth
        ≡ ok (encode v depth, summary (stamps v depth 0) (length (encode v depth)))
  pack_element-encode = pack_element-encode_lem
