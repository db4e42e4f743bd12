-- ===== src/Tuple/Versionstamp/Fields.antt =====
-- The parts of a versionstamp, and which versionstamps are complete.
use foundationdb_rs.Prelude.{
  ℕ, ◌*◌, ◌^◌, ◌<◌, ◌≡◌, ◌↔◌, refl, ap, sym, ◌∙◌, false, not, Bool-cases, inl, inr, List, [], ◌++◌,
  append-nil, length, take, drop, replicate, take-append_eq, drop-append_eq,
}
use foundationdb_rs.Tuple.Words.{be_bytes, length-be_bytes, from_be_bytes-be_bytes}
use foundationdb_rs.Tuple.Versionstamp.{
  same_bytes, same_bytes-eq, same_bytes_self, incomplete, complete, transaction_version,
  user_version, is_complete,
}

take_all : (n : ℕ) (v : List ℕ) → n ≡ length v → take n v ≡ v
take_all n v h = ap (take n) (sym (append-nil v)) ∙ take-append_eq n v [] h

-- A versionstamp is made of a transaction version of ten bytes and a user version of 16 bits, which are
-- read back from it; it is complete exactly where the transaction version is not all 0xff, and so an
-- incomplete one, from which the user version is read back as well, is not.
pub complete_lem :
    (tr : List ℕ) (version : ℕ)
    → length tr ≡ 10
    → version < 2 ^ (8 * 2)
    → (transaction_version (complete tr version) ≡ tr)
      × (user_version (complete tr version) ≡ version)
      × ((is_complete (complete tr version) ≡ false) ↔ (tr ≡ replicate 10 0xff))
      × (complete (replicate 10 0xff) version ≡ incomplete version)
unfolding transaction_version complete user_version is_complete incomplete
complete_lem tr version size small =
    let stamp = be_bytes 2 version in
    let front : take 10 (tr ++ stamp) ≡ tr = take-append_eq 10 tr stamp (sym size) in
    let back : drop 10 (tr ++ stamp) ≡ stamp = drop-append_eq 10 tr stamp (sym size) in
    let whole : take 2 stamp ≡ stamp = take_all 2 stamp (sym (length-be_bytes 2 version)) in
    (
      front,
      rw (back, whole) (from_be_bytes-be_bytes 2 version small),
      (
        (λ h. rw front at (open_eq (take 10 (tr ++ stamp)) h)),
        (λ all_ones.
            ap (λ (v : List ℕ). not (same_bytes v (replicate 10 0xff))) (front ∙ all_ones)
            ∙ ap not (same_bytes_self (replicate 10 0xff))),
      ),
      refl,
    )
  where
    open_eq : (v : List ℕ) → not (same_bytes v (replicate 10 0xff)) ≡ false → v ≡ replicate 10 0xff
    open_eq v h = elim (Bool-cases (same_bytes v (replicate 10 0xff))) [
      | inl same ↦ same_bytes-eq v (replicate 10 0xff) same
      | inr other ↦ (let no = rw other at h in cc)
    ]
