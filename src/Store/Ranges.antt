-- ===== src/Store/Ranges.antt =====
-- A transaction of foundationdb/src/transaction.rs with its range operations, which go to the
-- FoundationDB client library: `get`, `set`, `clear_range`, and `get_ranges_keyvalues` as the rows that
-- its stream gives, with the error that ends it where there is one. What is required is that the
-- transaction reads its own writes, and reads a range in the order of the keys.
use foundationdb_rs.Prelude.{
  ℕ, ◌≡◌, ◌≢◌, Option, none, some, List, [], ◌∷◌, ◌++◌, All, Result, ok, Ordering,
}
use foundationdb_rs.Tuple.Compare.{cmp_bytes}

-- The begin is inclusive, the end exclusive.
abbrev pub InRange : List ℕ → List ℕ → List ℕ → Type 0
InRange begin end key = (cmp_bytes begin key ≢ Ordering.gt) × (cmp_bytes key end ≡ Ordering.lt)

abbrev pub Row : Type 0
Row = List ℕ × List ℕ

-- The key comes after those of the rows.
abbrev pub After : List ℕ → List Row → Type 0
After key rows = All (λ (row : Row). cmp_bytes row.0 key ≡ Ordering.lt) rows

pub record RangeStore : Type 1 where
  pub Txn : Type 0
  pub get : Txn → List ℕ → Result ℕ (Option (List ℕ))
  pub set : Txn → List ℕ → List ℕ → Txn
  pub clear_range : Txn → List ℕ → List ℕ → Txn
  pub stream : Txn → List ℕ → List ℕ → List Row × Option ℕ
  pub get_set : (txn : Txn) (key value : List ℕ) → get (set txn key value) key ≡ ok (some value)
  pub get_set_other :
      (txn : Txn) (key other value : List ℕ)
      → other ≢ key
      → get (set txn key value) other ≡ get txn other
  pub get_clear_other :
      (txn : Txn) (begin end key : List ℕ)
      → (InRange begin end key → ⊥)
      → get (clear_range txn begin end) key ≡ get txn key
  pub stream_clear :
      (txn : Txn) (begin end : List ℕ) (rows : List Row)
      → stream txn begin end ≡ (rows, none)
      → stream (clear_range txn begin end) begin end ≡ ([], none)
  pub stream_set_last :
      (txn : Txn) (begin end key value : List ℕ) (rows : List Row)
      → stream txn begin end ≡ (rows, none)
      → InRange begin end key
      → After key rows
      → stream (set txn key value) begin end ≡ (rows ++ (key, value) ∷ [], none)
  pub stream_set_other :
      (txn : Txn) (begin end key value : List ℕ)
      → (InRange begin end key → ⊥)
      → stream (set txn key value) begin end ≡ stream txn begin end
