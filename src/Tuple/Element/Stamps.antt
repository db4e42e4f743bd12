-- ===== src/Tuple/Element/Stamps.antt =====
-- The offset that packing returns stands at an incomplete versionstamp.
use foundationdb_rs.Prelude.{
  ℕ, zero, suc, ◌≤◌, ◌+◌, ◌-◌, ◌<◌, ◌≡◌, refl, ap, sym, ◌∙◌, Bool, true, false, not, List, [], ◌∷◌,
  ◌++◌, append_assoc, append-nil, ltb, Bool-cases, inl, inr, length, length-append, take, drop,
  slice, replicate, drop-append_eq, All, All-append, arith,
}
use foundationdb_rs.Tuple.Codes.{nested_code, nil_code, versionstamp_code}
use foundationdb_rs.Tuple.Versionstamp.{same_bytes-eq, is_complete}
use foundationdb_rs.Tuple.Element.{
  Element, Elements, nil, bytes, string, tuple, int, float, double, bool, versionstamp, no_more,
  more,
}
use foundationdb_rs.Tuple.Element.Encoding.{
  IsElement, AreElements, encode, encode_all, stamps, stamps_all,
}

-- Ten bytes that the database is to fill in stand at a place.
abbrev pub IsOpen : List ℕ → ℕ → Type 0
IsOpen all k = (k + 10 ≤ length all) × (slice all k (k + 10) ≡ replicate 10 0xff)

not-false : (b : Bool) → not b ≡ false → b ≡ true
not-false true h = refl
not-false false h = cc

open_bytes : (v : List ℕ) → is_complete v ≡ false → take 10 v ≡ replicate 10 0xff
unfolding is_complete
open_bytes v h = same_bytes-eq (take 10 v) (replicate 10 0xff) (not-false _ h)

take-take_append : (n : ℕ) (v post : List ℕ) → n < length v → take n (v ++ post) ≡ take n v
take-take_append n [] post h = absurd (omega arith)
take-take_append zero (x ∷ v) post h = refl
take-take_append (suc n) (x ∷ v) post h =
    ap (λ (l : List ℕ). x ∷ l) (take-take_append n v post (omega arith))

stamp_place :
    (all pre v post : List ℕ) (at : ℕ)
    → all ≡ pre ++ versionstamp_code ∷ (v ++ post)
    → at ≡ length pre
    → length v ≡ 12
    → is_complete v ≡ false
    → IsOpen all (suc at)
stamp_place all pre v post at whole place size open_stamp =
    let moved : all ≡ (pre ++ versionstamp_code ∷ []) ++ (v ++ post) =
      rw whole (simp append_assoc) in
    let ten : suc at + 10 - suc at ≡ 10 = omega arith in
    let behind : drop (suc at) all ≡ v ++ post = rw moved (
      drop-append_eq (suc at) (pre ++ versionstamp_code ∷ []) (v ++ post)
        (omega (arith, length-append pre (versionstamp_code ∷ [])))) in
    (
      rw whole (
          omega (arith, length-append pre (versionstamp_code ∷ (v ++ post)), length-append v post)),
      rw (ten, behind) (take-take_append 10 v post (omega arith) ∙ open_bytes v open_stamp),
    )

mutual
  stamps-IsOpen_lem :
      (v : Element) (d at : ℕ) (all pre post : List ℕ)
      → IsElement v
      → all ≡ pre ++ (encode v d ++ post)
      → at ≡ length pre
      → All (IsOpen all) (stamps v d at)
  stamps-IsOpen_lem (versionstamp v) d at all pre post h whole place =
      elim (Bool-cases (is_complete v)) [
        | inl done ↦ rw done tt
        | inr open_stamp ↦
            rw open_stamp (stamp_place all pre v post at whole place h.1 open_stamp, tt)
      ]
  stamps-IsOpen_lem (tuple vs) d at all pre post h whole place = elim (Bool-cases (ltb 0 d)) [
    | inl inner ↦
        let inside = encode_all vs (suc d) in
        rw inner (
          stamps_all-IsOpen_lem vs (suc d) (suc at) all (pre ++ nested_code ∷ []) (nil_code ∷ post)
            h ((rw inner at whole) ∙ simp append_assoc)
            (omega (arith, length-append pre (nested_code ∷ []))))
    | inr root ↦
        rw root (stamps_all-IsOpen_lem vs (suc d) at all pre post h (rw root at whole) place)
  ]
  stamps-IsOpen_lem nil d at all pre post h whole place = tt
  stamps-IsOpen_lem (bytes v) d at all pre post h whole place = tt
  stamps-IsOpen_lem (string v) d at all pre post h whole place = tt
  stamps-IsOpen_lem (int i) d at all pre post h whole place = tt
  stamps-IsOpen_lem (float f) d at all pre post h whole place = tt
  stamps-IsOpen_lem (double f) d at all pre post h whole place = tt
  stamps-IsOpen_lem (bool b) d at all pre post h whole place = tt

  stamps_all-IsOpen_lem :
      (vs : Elements) (d at : ℕ) (all pre post : List ℕ)
      → AreElements vs
      → all ≡ pre ++ (encode_all vs d ++ post)
      → at ≡ length pre
      → All (IsOpen all) (stamps_all vs d at)
  stamps_all-IsOpen_lem no_more d at all pre post h whole place = tt
  stamps_all-IsOpen_lem (more v vs) d at all pre post h whole place =
      let first = encode v d in
      let others = encode_all vs d in
      All-append (IsOpen all) (stamps v d at) (stamps_all vs d (at + length first))
        (stamps-IsOpen_lem v d at all pre (others ++ post) h.0 (whole ∙ simp append_assoc) place)
        (stamps_all-IsOpen_lem vs d (at + length first) all (pre ++ first) post h.1
          (whole ∙ simp append_assoc) (omega (arith, length-append pre first)))

-- The places of the incomplete versionstamps of a value that stands behind `pre`.
pub stamps-IsOpen :
    (v : Element) (d : ℕ) (pre : List ℕ)
    → IsElement v
    → All (IsOpen (pre ++ encode v d)) (stamps v d (length pre))
stamps-IsOpen v d pre h =
    stamps-IsOpen_lem v d (length pre) (pre ++ encode v d) pre [] h
      (ap (λ (l : List ℕ). pre ++ l) (sym (append-nil (encode v d)))) refl
