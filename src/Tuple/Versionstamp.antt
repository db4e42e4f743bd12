-- ===== src/Tuple/Versionstamp.antt =====
-- foundationdb-tuple/src/versionstamp.rs: twelve bytes, ten for the transaction's version and two for
-- the user's. The former are all 0xff until the database fills them in.
pub mod Fields
use foundationdb_rs.Prelude.{
  ℕ, ◌≡◌, refl, Bool, true, false, List, [], ◌∷◌, ◌++◌, ◌==◌, ◌&&◌, if◌then◌else◌, not, take, drop,
  replicate, ok, ◌>>=◌, ==_self, ==_iff, Bool-cases, inl, inr,
}
use foundationdb_rs.Tuple.Codes.{versionstamp_code}
use foundationdb_rs.Tuple.Offset.{VersionstampOffset}
use foundationdb_rs.Tuple.Bytes.{Parsed, Packed, parse_bytes, parse_code}
use foundationdb_rs.Tuple.Words.{be_bytes, from_be_bytes}

-- `==` of byte slices
unfoldable pub same_bytes : List ℕ → List ℕ → Bool
same_bytes [] [] = true
same_bytes [] (y ∷ ys) = false
same_bytes (x ∷ xs) [] = false
same_bytes (x ∷ xs) (y ∷ ys) = x == y && same_bytes xs ys

unfoldable pub incomplete : ℕ → List ℕ
unfolding be_bytes
incomplete user_version = replicate 10 0xff ++ be_bytes 2 user_version

unfoldable pub complete : List ℕ → ℕ → List ℕ
unfolding be_bytes
complete tr_version user_version = tr_version ++ be_bytes 2 user_version

unfoldable pub transaction_version : List ℕ → List ℕ
transaction_version bytes = take 10 bytes

unfoldable pub user_version : List ℕ → ℕ
user_version bytes = from_be_bytes (take 2 (drop 10 bytes))

unfoldable pub is_complete : List ℕ → Bool
unfolding same_bytes
is_complete bytes = not (same_bytes (take 10 bytes) (replicate 10 0xff))

-- `TuplePack for Versionstamp`
unfoldable pub pack_versionstamp : List ℕ → Packed
pack_versionstamp bytes = ok (
  versionstamp_code ∷ bytes,
  if is_complete bytes then VersionstampOffset.none 13 else VersionstampOffset.one_incomplete 1,
)

-- `TupleUnpack for Versionstamp`
unfoldable pub unpack_versionstamp : List ℕ → Parsed (List ℕ)
unfolding parse_code
unpack_versionstamp input = do rest ← parse_code input versionstamp_code; parse_bytes rest 12

-- The test decides equality.
pub same_bytes-eq : (xs ys : List ℕ) → same_bytes xs ys ≡ true → xs ≡ ys
unfolding same_bytes
same_bytes-eq [] [] h = refl
same_bytes-eq [] (y ∷ ys) h = cc
same_bytes-eq (x ∷ xs) [] h = cc
same_bytes-eq (x ∷ xs) (y ∷ ys) h = elim (Bool-cases (x == y)) [
  | inl same ↦
      let rest = same_bytes-eq xs ys (rw same at h) in let first = (==_iff x y).0 same in cc
  | inr other ↦ (let no = rw other at h in cc)
]

pub same_bytes_self : (v : List ℕ) → same_bytes v v ≡ true
unfolding same_bytes
same_bytes_self [] = refl
same_bytes_self (x ∷ v) = rw (==_self x) (same_bytes_self v)
