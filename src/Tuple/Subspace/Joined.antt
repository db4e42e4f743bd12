-- ===== src/Tuple/Subspace/Joined.antt =====
-- A subspace stands for the front of a tuple: the key that it makes is the key of the whole tuple.
use foundationdb_rs.Prelude.{
  ℕ, ◌+◌, ◌≡◌, refl, ap, sym, ◌∙◌, List, [], ◌++◌, append_assoc, length, length-append, ◌>>=◌, ℤ,
  arith,
}
use foundationdb_rs.Tuple.Bytes.{Memchr}
use foundationdb_rs.Tuple.Element.{Elements, tuple, no_more, more}
use foundationdb_rs.Tuple.Element.Encoding.{
  AreElements, encode, encode_all, stamps, stamps_all, summary,
}
use foundationdb_rs.Tuple.Subspace.{
  Subspace, from, subspace, pack_with_versionstamp_for_key, pack_key,
}
use foundationdb_rs.Tuple.Subspace.Keys.{pack_into-encode}
use foundationdb_rs.Tuple.Subspace.Stamped.{joined_summary}

-- The values of one tuple behind those of another.
abbrev pub append_elements : Elements → Elements → Elements
append_elements no_more ws = ws
append_elements (more v vs) ws = more v (append_elements vs ws)

AreElements-append :
    (vs ws : Elements) → AreElements vs → AreElements ws → AreElements (append_elements vs ws)
AreElements-append no_more ws h k = k
AreElements-append (more v vs) ws h k = (h.0, AreElements-append vs ws h.1 k)

encode_all-append :
    (vs ws : Elements) (d : ℕ)
    → encode_all (append_elements vs ws) d ≡ encode_all vs d ++ encode_all ws d
encode_all-append no_more ws d = refl
encode_all-append (more v vs) ws d =
    ap (λ (l : List ℕ). encode v d ++ l) (encode_all-append vs ws d)
    ∙ sym (append_assoc (encode v d) (encode_all vs d) (encode_all ws d))

stamps_all-append :
    (vs ws : Elements) (d at : ℕ)
    → stamps_all (append_elements vs ws) d at
      ≡ stamps_all vs d at ++ stamps_all ws d (at + length (encode_all vs d))
stamps_all-append no_more ws d at = ap (λ (k : ℕ). stamps_all ws d k) (omega arith)
stamps_all-append (more v vs) ws d at =
    let n = length (encode v d) in
    ap (λ (l : List ℕ). stamps v d at ++ l)
      (stamps_all-append vs ws d (at + n)
        ∙ ap (λ (k : ℕ). stamps_all vs d (at + n) ++ stamps_all ws d k)
            {x = at + n + length (encode_all vs d)}
            {y = at + length (encode v d ++ encode_all vs d)}
            (omega (arith, length-append (encode v d) (encode_all vs d))))
    ∙ sym (append_assoc (stamps v d at) (stamps_all vs d (at + n)) _)

root_stamps :
    (vs ws : Elements)
    → stamps_all (append_elements vs ws) 1 0
      ≡ stamps_all vs 1 0 ++ stamps_all ws 1 (length (encode_all vs 1))
root_stamps vs ws =
    stamps_all-append vs ws 1 0
    ∙ ap (λ (k : ℕ). stamps_all vs 1 0 ++ stamps_all ws 1 k) {x = 0 + length (encode_all vs 1)}
        {y = length (encode_all vs 1)} (omega arith)

module _ (m : Memchr) where
  -- For two tuples of Rust's types, the subspace made from the first packs the second to the key that
  -- the tuple of all the values is packed to, with the same versionstamp offset behind it or the same
  -- panic.
  pub pack_with_versionstamp_for_key-from :
      (vs ws : Elements) (api_version : ℤ)
      → AreElements vs
      → AreElements ws
      → (from m (tuple vs) >>= λ s. pack_with_versionstamp_for_key m s (tuple ws) api_version)
        ≡ pack_key m (tuple (append_elements vs ws)) api_version
  unfolding from pack_with_versionstamp_for_key pack_key
  pack_with_versionstamp_for_key-from vs ws api_version hv hw =
      let s : Subspace = record {
        prefix = encode_all vs 1;
        versionstamp_offset = summary (stamps_all vs 1 0) (length (encode_all vs 1));
      } in
      rw (
        pack_into-encode m (tuple vs) [] hv,
        pack_into-encode m (tuple ws) (encode_all vs 1) hw,
        pack_into-encode m (tuple (append_elements vs ws)) [] (AreElements-append vs ws hv hw),
        joined_summary s (stamps_all vs 1 0) (tuple ws) refl,
        encode_all-append vs ws 1,
        root_stamps vs ws,
      )

  -- Two subspaces of tuples, one inside the other, are the subspace of the tuple of all the values.
  pub subspace-from :
      (vs ws : Elements)
      → AreElements vs
      → AreElements ws
      → (from m (tuple vs) >>= λ s. subspace m s (tuple ws))
        ≡ from m (tuple (append_elements vs ws))
  unfolding from subspace
  subspace-from vs ws hv hw =
      let s : Subspace = record {
        prefix = encode_all vs 1;
        versionstamp_offset = summary (stamps_all vs 1 0) (length (encode_all vs 1));
      } in
      rw (
        pack_into-encode m (tuple vs) [] hv,
        pack_into-encode m (tuple ws) (encode_all vs 1) hw,
        pack_into-encode m (tuple (append_elements vs ws)) [] (AreElements-append vs ws hv hw),
        joined_summary s (stamps_all vs 1 0) (tuple ws) refl,
        encode_all-append vs ws 1,
        root_stamps vs ws,
      )
