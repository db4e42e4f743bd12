-- ===== src/Tuple/Subspace/Stamped.antt =====
-- Keys with an incomplete versionstamp: the offset behind the key stands at the ten bytes that the
-- database fills in, wherever in the prefix or in the tuple they are.
use foundationdb_rs.Prelude.{
  ℕ, zero, suc, ◌-◌, ◌+◌, ◌%◌, ◌^◌, ◌≤◌, ◌<◌, ◌≡◌, refl, ap, ap₂, sym, ◌∙◌, List, [], ◌∷◌, ◌++◌,
  ltb, if◌then◌else◌, length, length-append, take, drop, All, All-append, Result, ok, err, ℤ, arith,
}
use native.Mathlib.Nat.{mod-eq_of_lt}
use foundationdb_rs.Tuple.Offset.{add_offset}
use foundationdb_rs.Tuple.Bytes.{Memchr}
use foundationdb_rs.Tuple.Element.{Element}
use foundationdb_rs.Tuple.Element.Encoding.{
  IsElement, encode, stamps, summary, shift, stamps-shift, add_offset-summary,
}
use foundationdb_rs.Tuple.Element.Stamps.{IsOpen, stamps-IsOpen}
use foundationdb_rs.Tuple.Subspace.{
  Panic, multiple_stamps, offset_too_large, le_bytes, is_legacy, append_key_offset, Subspace, pack,
  pack_with_versionstamp_for_key,
}
use foundationdb_rs.Tuple.Subspace.Keys.{pack_into-encode}

-- Some places in the prefix, with the ten bytes 0xff at each, to which the offset of a subspace fits.
-- Tuple/Subspace/Made is about those of the incomplete versionstamps of the values in it.
pub record IsSubspace (s : Subspace) : Type 0 where
  pub places : List ℕ
  pub offset : s.versionstamp_offset ≡ summary places (length s.prefix)
  pub open_places : All (IsOpen s.prefix) places

-- The key that a body with incomplete versionstamps at these places makes.
abbrev pub key_of : List ℕ → List ℕ → ℤ → Result Panic (List ℕ)
key_of [] body api_version = ok body
key_of (k ∷ []) body api_version =
    if is_legacy api_version
    then (if ltb k (2 ^ 16) then ok (body ++ le_bytes 2 k) else err offset_too_large)
    else ok (body ++ le_bytes 4 k)
key_of (k ∷ l ∷ ks) body api_version = err multiple_stamps

take-longer : (n : ℕ) (v w : List ℕ) → n ≤ length v → take n (v ++ w) ≡ take n v
take-longer zero v w b = refl
take-longer (suc n) [] w b = absurd (omega arith)
take-longer (suc n) (x ∷ v) w b = ap (λ (l : List ℕ). x ∷ l) (take-longer n v w (omega arith))

slice-longer :
    (n k : ℕ) (v w : List ℕ) → k + n ≤ length v → take n (drop k (v ++ w)) ≡ take n (drop k v)
slice-longer n zero v w b = take-longer n v w (omega arith)
slice-longer n (suc k) [] w b = absurd (omega arith)
slice-longer n (suc k) (x ∷ v) w b = slice-longer n k v w (omega arith)

-- A place in a prefix is a place in what extends it.
IsOpen-append : (xs ys : List ℕ) (k : ℕ) → IsOpen xs k → IsOpen (xs ++ ys) k
IsOpen-append xs ys k h =
    let ten : k + 10 - k ≡ 10 = omega arith in
    (
      omega (arith, h.0, length-append xs ys),
      rw ten (slice-longer 10 k xs ys h.0 ∙ (rw ten at h.1)),
    )

All-longer : (xs ys ks : List ℕ) → All (IsOpen xs) ks → All (IsOpen (xs ++ ys)) ks
All-longer xs ys [] h = tt
All-longer xs ys (k ∷ ks) h = (IsOpen-append xs ys k h.0, All-longer xs ys ks h.1)

-- A key of fewer than 2^32 bytes is written with the place itself.
append_key_offset-summary :
    (ks body : List ℕ) (api_version : ℤ)
    → All (IsOpen body) ks
    → length body < 2 ^ 32
    → append_key_offset (summary ks (length body)) body api_version ≡ key_of ks body api_version
unfolding append_key_offset
append_key_offset-summary [] body api_version h small = refl
append_key_offset-summary (k ∷ []) body api_version h small =
    let same : k % 2 ^ 32 ≡ k = mod-eq_of_lt (omega (arith, (h.0).0)) in rw same
append_key_offset-summary (k ∷ l ∷ ks) body api_version h small = refl

-- Behind a prefix, the places and the offset of a value.
pub joined_summary :
    (s : Subspace) (places : List ℕ) (v : Element)
    → s.versionstamp_offset ≡ summary places (length s.prefix)
    → add_offset s.versionstamp_offset (summary (stamps v 0 0) (length (encode v 0)))
      ≡ summary (places ++ stamps v 0 (length s.prefix)) (length (s.prefix ++ encode v 0))
joined_summary s places v h =
    let n = length s.prefix in
    let moved : shift n (stamps v 0 0) ≡ stamps v 0 n =
      sym (stamps-shift v 0 n 0) ∙ ap (λ (k : ℕ). stamps v 0 k) {x = n + 0} {y = n} (omega arith) in
    let size : n + length (encode v 0) ≡ length (s.prefix ++ encode v 0) =
      omega (arith, length-append s.prefix (encode v 0)) in
    rw h (
      add_offset-summary places (stamps v 0 0) n (length (encode v 0))
      ∙ ap₂ (λ (l : List ℕ) (k : ℕ). summary (places ++ l) k) moved size)

pub joined-IsOpen :
    (s : Subspace) (places : List ℕ) (v : Element)
    → IsElement v
    → All (IsOpen s.prefix) places
    → All (IsOpen (s.prefix ++ encode v 0)) (places ++ stamps v 0 (length s.prefix))
joined-IsOpen s places v hv h =
    All-append (IsOpen (s.prefix ++ encode v 0)) places (stamps v 0 (length s.prefix))
      (All-longer s.prefix (encode v 0) places h) (stamps-IsOpen v 0 s.prefix hv)

module _ (m : Memchr) where
  -- For a key of fewer than 2^32 bytes: it is the plain key where no versionstamp in the prefix and in
  -- the tuple is incomplete; with one, the plain key and the place of the ten bytes to be filled in,
  -- in two bytes before API 520, else in four; a panic with several, or where the place is no `u16`.
  pub pack_with_versionstamp_for_key-places :
      (s : Subspace) (v : Element) (api_version : ℤ)
      → (valid : IsSubspace s) → IsElement v
      → length (s.prefix ++ encode v 0) < 2 ^ 32
      → (body : List ℕ) × (pack m s v ≡ ok body)
        × All (IsOpen body) (valid.places ++ stamps v 0 (length s.prefix))
        × (pack_with_versionstamp_for_key m s v api_version
            ≡ key_of (valid.places ++ stamps v 0 (length s.prefix)) body api_version)
  unfolding pack pack_with_versionstamp_for_key
  pack_with_versionstamp_for_key-places s v api_version h hv small =
      let places = h.places ++ stamps v 0 (length s.prefix) in
      let body = s.prefix ++ encode v 0 in
      let is_open = joined-IsOpen s h.places v hv h.open_places in
      (
        body,
        rw (pack_into-encode m v s.prefix hv),
        is_open,
        rw (pack_into-encode m v s.prefix hv, joined_summary s h.places v h.offset)
            (append_key_offset-summary places body api_version is_open small),
      )
