-- ===== src/Tuple/Subspace/Made.antt =====
-- The subspaces that the code makes, and where their incomplete versionstamps are.
use foundationdb_rs.Prelude.{
  ℕ, ◌%◌, ◌^◌, ◌<◌, ◌≡◌, refl, ap, ◌∙◌, subst, List, [], ◌∷◌, ◌++◌, ltb, length, All, Bool-cases,
  inl, inr, ok, arith,
}
use native.Mathlib.Nat.{mod-eq_of_lt}
use foundationdb_rs.Tuple.Offset.{VersionstampOffset, add_offset}
use foundationdb_rs.Tuple.Bytes.{Memchr}
use foundationdb_rs.Tuple.Element.{Element}
use foundationdb_rs.Tuple.Element.Encoding.{IsElement, encode, stamps, summary}
use foundationdb_rs.Tuple.Element.Stamps.{IsOpen, stamps-IsOpen}
use foundationdb_rs.Tuple.Subspace.{Subspace, all, from_bytes, from, subspace}
use foundationdb_rs.Tuple.Subspace.Keys.{pack_into-encode}
use foundationdb_rs.Tuple.Subspace.Stamped.{joined_summary, joined-IsOpen}

-- A subspace that the code makes from values of Rust's types, with the places in its prefix of all
-- incomplete versionstamps of these values. The bytes of a raw prefix are not read as values.
pub data Made (m : Memchr) : Subspace → List ℕ → Type 0 where
  made_all : Made m all []
  made_raw : (prefix : List ℕ) (s : Subspace) → from_bytes prefix ≡ ok s → Made m s []
  made_from : (v : Element) (s : Subspace) → IsElement v → from m v ≡ ok s → Made m s (stamps v 0 0)
  made_inside :
      (s t : Subspace) (places : List ℕ) (v : Element)
      → Made m s places
      → IsElement v
      → subspace m s v ≡ ok t
      → Made m t (places ++ stamps v 0 (length s.prefix))

-- What an offset has to say of the incomplete versionstamps in some bytes: the number of the bytes
-- where there is none, the place of the only one, or that there are several.
abbrev pub offset_of : List ℕ → ℕ → VersionstampOffset
offset_of [] size = VersionstampOffset.none size
offset_of (k ∷ []) size = VersionstampOffset.one_incomplete k
offset_of (k ∷ l ∷ ks) size = VersionstampOffset.multiple_incomplete

-- The subspace of a value inside another one
abbrev pub extended : Subspace → Element → Subspace
extended s v = record {
  prefix = s.prefix ++ encode v 0;
  versionstamp_offset =
      add_offset s.versionstamp_offset (summary (stamps v 0 0) (length (encode v 0)));
}

module _ (m : Memchr) where
  pub subspace-extended :
      (s : Subspace) (v : Element) → IsElement v → subspace m s v ≡ ok (extended s v)
  unfolding subspace
  subspace-extended s v h = rw (pack_into-encode m v s.prefix h)

  from-encode :
      (v : Element)
      → IsElement v
      → from m v
        ≡ ok (record {
          prefix = encode v 0;
          versionstamp_offset = summary (stamps v 0 0) (length (encode v 0));
        })
  unfolding from
  from-encode v h = rw (pack_into-encode m v [] h)

  -- The offset, up to the wrap-around at 2^32, and the bytes at the places
  record Fits (s : Subspace) (places : List ℕ) : Type 0 where
    offset : s.versionstamp_offset ≡ summary places (length s.prefix)
    open_places : All (IsOpen s.prefix) places

  Fits-raw : (prefix : List ℕ) (s : Subspace) → from_bytes prefix ≡ ok s → Fits s []
  unfolding from_bytes
  Fits-raw prefix s e = elim (Bool-cases (ltb (length prefix) (2 ^ 32))) [
    | inl short ↦
        let e' = rw short at e in
        let made : Subspace = record {
          prefix = prefix;
          versionstamp_offset = VersionstampOffset.none (length prefix);
        } in
        let same : made ≡ s = cc in
        let size : length prefix ≡ length prefix % 2 ^ 32 = grind arith in
        subst (λ t. Fits t []) same
          (record { offset = ap VersionstampOffset.none size; open_places = tt })
    | inr long ↦ (let no = rw long at e in cc)
  ]

  Fits-Made : (s : Subspace) (places : List ℕ) → Made m s places → Fits s places
  unfolding all
  Fits-Made _ _ made_all = record { offset = refl; open_places = tt }
  Fits-Made _ _ (made_raw prefix s e) = Fits-raw prefix s e
  Fits-Made _ _ (made_from v s h e) =
      let made : Subspace = record {
        prefix = encode v 0;
        versionstamp_offset = summary (stamps v 0 0) (length (encode v 0));
      } in
      let done = from-encode v h in
      let same : made ≡ s = cc in
      subst (λ t. Fits t (stamps v 0 0)) same
        (record { offset = refl; open_places = stamps-IsOpen v 0 [] h })
  Fits-Made _ _ (made_inside s t places v made h e) =
      let before = Fits-Made s places made in
      let done = subspace-extended s v h in
      let same : extended s v ≡ t = cc in
      subst (λ u. Fits u (places ++ stamps v 0 (length s.prefix))) same
        (record {
          offset = joined_summary s places v before.offset;
          open_places = joined-IsOpen s places v h before.open_places;
        })

  summary-offset_of :
      (xs places : List ℕ)
      → length xs < 2 ^ 32
      → All (IsOpen xs) places
      → summary places (length xs) ≡ offset_of places (length xs)
  summary-offset_of xs [] small h = ap VersionstampOffset.none (mod-eq_of_lt small)
  summary-offset_of xs (k ∷ []) small h =
      ap VersionstampOffset.one_incomplete (mod-eq_of_lt (omega (arith, (h.0).0)))
  summary-offset_of xs (k ∷ l ∷ ks) small h = refl

  -- Of a subspace of fewer than 2^32 bytes that the code makes, as the whole key space, from a raw
  -- prefix, from a value, or inside another one: the ten bytes 0xff of each incomplete versionstamp of
  -- its values stand at its place in the prefix, and the offset is the size of the prefix where there
  -- is none, the place of the only one, or says that there are several.
  pub versionstamp_offset-Made :
      (s : Subspace) (places : List ℕ)
      → Made m s places
      → length s.prefix < 2 ^ 32
      → (s.versionstamp_offset ≡ offset_of places (length s.prefix)) × All (IsOpen s.prefix) places
  versionstamp_offset-Made s places made small =
      let fits = Fits-Made s places made in
      (fits.offset ∙ summary-offset_of s.prefix places small fits.open_places, fits.open_places)
