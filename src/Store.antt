-- ===== src/Store.antt =====
-- A transaction of foundationdb/src/transaction.rs as the recipes use it: `get` and `set` go to the
-- FoundationDB client library, which is not part of the repository. An error is its code. A transaction
-- reads its own writes, which is how the client library is documented.
pub mod Ranges
pub mod InMemory
use foundationdb_rs.Prelude.{ℕ, ◌≡◌, ◌≢◌, Option, some, List, Result, ok}

pub record Store : Type 1 where
  pub Txn : Type 0
  pub get : Txn → List ℕ → Result ℕ (Option (List ℕ))
  pub set : Txn → List ℕ → List ℕ → Txn
  pub get_set : (txn : Txn) (key value : List ℕ) → get (set txn key value) key ≡ ok (some value)
  pub get_set_other :
      (txn : Txn) (key other value : List ℕ)
      → other ≢ key
      → get (set txn key value) other ≡ get txn other
