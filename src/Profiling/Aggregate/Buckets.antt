-- ===== src/Profiling/Aggregate/Buckets.antt =====
-- The buckets of `KeyCounts::buckets`: how the hits are split, how many buckets there are and how full.
use foundationdb_rs.Prelude.{ℕ, ◌+◌, ◌≤◌, List, [], ◌∷◌, ◌++◌, length}
use foundationdb_rs.Profiling.Aggregate.{Counts, Bucket, bucket_size}
use foundationdb_rs.Profiling.Aggregate.Counts.{hits, IsAscending}

-- Starting positions in groups of neighbours: a bucket starts at the first of its group and counts the
-- hits of all of it.
pub data Groups : Counts (List ℕ) → List Bucket → Type 0 where
  nil : Groups [] []
  group :
      (start : List ℕ) (count : ℕ) (es rest : Counts (List ℕ)) (bs : List Bucket)
      → Groups rest bs
      → Groups
          ((start, count) ∷ (es ++ rest))
          (record { start = start; count = count + hits es } ∷ bs)

-- All buckets but the last have this many hits or more.
abbrev pub IsFilled : ℕ → List Bucket → Type 0
IsFilled size [] = Unit
IsFilled size (b ∷ []) = Unit
IsFilled size (b ∷ c ∷ bs) = (size ≤ b.count) × IsFilled size (c ∷ bs)

-- What the loop makes of a group that is begun and of the positions behind it
record Split (n size made : ℕ) (entries : Counts (List ℕ)) (bs : List Bucket) : Type 0 where
  groups : Groups entries bs
  few : made + length bs ≤ n
  filled : IsFilled size bs

-- What a number of buckets says of the buckets of some starting positions
pub record IsSplit (starts : Counts (List ℕ)) (n total : ℕ) (bs : List Bucket) : Type 0 where
  pub ascending : IsAscending starts
  pub groups : Groups starts bs
  pub few : length bs ≤ n
  pub filled : IsFilled (bucket_size total n) bs
