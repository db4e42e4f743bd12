-- ===== src/Profiling/Aggregate.antt =====
-- foundationdb-profiling/src/aggregate.rs: counts of the keys and ranges that transactions read and
-- wrote. A `BTreeMap` is the list of its entries in the order of its keys, a `u64` wraps around.
pub mod Counts
pub mod Starts
pub mod Buckets
pub mod Recorded
pub mod Totals
mod Tests
use foundationdb_rs.Prelude.{
  ℕ, zero, suc, ◌+◌, ◌/◌, ◌%◌, ◌^◌, Bool, true, false, not, ◌&&◌, ◌||◌, Option, none, some, List,
  [], ◌∷◌, ◌==◌, ltb, leb, if◌then◌else◌, take, Ordering,
}
use foundationdb_rs.Tuple.Compare.{cmp_bytes}
use foundationdb_rs.Tuple.Compare.Total.{before}
use foundationdb_rs.Profiling.{KeyRange, Mutation, clear_range_type, Event}

abbrev pub add_u64 : ℕ → ℕ → ℕ
add_u64 a b = (a + b) % 2 ^ 64

-- `<` of ranges
abbrev pub range_before : KeyRange → KeyRange → Bool
range_before a b = elim (cmp_bytes a.begin b.begin) [
  | Ordering.lt ↦ true
  | Ordering.eq ↦ before a.end b.end
  | Ordering.gt ↦ false
]

abbrev pub Counts : Type 0 → Type 0
Counts K = List (K × ℕ)

-- `*entry(key).or_insert(0) += n`
unfoldable pub add_count : {K : Type 0} → (K → K → Bool) → K → ℕ → Counts K → Counts K
add_count lt key n [] = (key, add_u64 0 n) ∷ []
add_count lt key n ((k, count) ∷ rest) =
    let added = add_count lt key n rest in
    if lt key k
    then (key, add_u64 0 n) ∷ ((k, count) ∷ rest)
    else if lt k key
    then (k, count) ∷ added
    else (k, add_u64 count n) ∷ rest

pub record KeyCounts : Type 0 where
  pub keys : Counts (List ℕ)
  pub ranges : Counts KeyRange

-- `KeyCounts::insert_key`
unfoldable pub insert_key : KeyCounts → List ℕ → KeyCounts
insert_key counts key = record counts { keys = add_count before key 1 counts.keys }

-- `KeyCounts::insert_range`
unfoldable pub insert_range : KeyCounts → KeyRange → KeyCounts
insert_range counts range = record counts { ranges = add_count range_before range 1 counts.ranges }

pub record Aggregator : Type 0 where
  pub reads : KeyCounts
  pub writes : KeyCounts

abbrev pub no_counts : KeyCounts
no_counts = record { keys = []; ranges = [] }

-- `Aggregator::default`
abbrev pub default : Aggregator
default = record { reads = no_counts; writes = no_counts }

abbrev pub contains : ℕ → List ℕ → Bool
contains t [] = false
contains t (x ∷ xs) = x == t || contains t xs

-- `SINGLE_KEY_WRITE_TYPES`: SET_VALUE, ADD_VALUE, AND, OR, XOR, APPEND_IF_FITS, MAX, MIN,
-- SET_VERSIONSTAMPED_VALUE, BYTE_MIN, BYTE_MAX, MIN_V2, AND_V2, COMPARE_AND_CLEAR
abbrev pub single_key_write_types : List ℕ
single_key_write_types = 0 ∷ 2 ∷ 6 ∷ 7 ∷ 8 ∷ 9 ∷ 12 ∷ 13 ∷ 15 ∷ 16 ∷ 17 ∷ 18 ∷ 19 ∷ 20 ∷ []

-- One mutation of a commit, in `Aggregator::record_event`
unfoldable pub record_mutation : KeyCounts → Mutation → KeyCounts
record_mutation writes mutation =
    if mutation.mutation_type == clear_range_type
    then insert_range writes (record { begin = mutation.param1; end = mutation.param2 })
    else if contains mutation.mutation_type single_key_write_types
    then insert_key writes mutation.param1
    else writes

unfoldable pub record_mutations : KeyCounts → List Mutation → KeyCounts
record_mutations writes [] = writes
record_mutations writes (mutation ∷ mutations) =
    record_mutations (record_mutation writes mutation) mutations

-- `Aggregator::record_event`
unfoldable pub record_event : Aggregator → Event → Aggregator
record_event a (Event.get get) = record a { reads = insert_key a.reads get.key }
record_event a (Event.get_range get_range) = record a {
  reads = insert_range a.reads get_range.range;
}
record_event a (Event.commit commit) = record a {
  writes = record_mutations a.writes (commit.request).mutations;
}
record_event a (Event.get_version e) = a
record_event a (Event.get_error e) = a
record_event a (Event.get_range_error e) = a
record_event a (Event.commit_error e) = a

-- `Aggregator::record`, on the events of a transaction
unfoldable pub record_events : Aggregator → List Event → Aggregator
record_events a [] = a
record_events a (event ∷ events) = record_events (record_event a event) events

-- `values().sum()`
unfoldable pub sum_from : {K : Type 0} → ℕ → Counts K → ℕ
sum_from acc [] = acc
sum_from acc ((k, count) ∷ rest) = sum_from (add_u64 acc count) rest

-- `KeyCounts::total`
unfoldable pub total : KeyCounts → ℕ
total counts = add_u64 (sum_from 0 counts.keys) (sum_from 0 counts.ranges)

-- The order of the entries: by the count, the greatest first, then by the key
unfoldable pub place_by_count : {K : Type 0} → (K → K → Bool) → K × ℕ → Counts K → Counts K
place_by_count lt x [] = x ∷ []
place_by_count lt x (y ∷ ys) =
    let rest = place_by_count lt x ys in
    if ltb x.1 y.1 || (x.1 == y.1 && lt y.0 x.0) then y ∷ rest else x ∷ (y ∷ ys)

unfoldable pub sort_by_count : {K : Type 0} → (K → K → Bool) → Counts K → Counts K
unfolding place_by_count
sort_by_count lt [] = []
sort_by_count lt (x ∷ xs) = place_by_count lt x (sort_by_count lt xs)

-- `KeyCounts::top_keys`
unfoldable pub top_keys : KeyCounts → ℕ → Counts (List ℕ)
top_keys counts n = take n (sort_by_count before counts.keys)

-- `KeyCounts::top_ranges`
unfoldable pub top_ranges : KeyCounts → ℕ → Counts KeyRange
top_ranges counts n = take n (sort_by_count range_before counts.ranges)

pub record Bucket : Type 0 where
  pub start : List ℕ
  pub count : ℕ

-- The hits of the ranges, at their begins
unfoldable pub add_ranges : Counts KeyRange → Counts (List ℕ) → Counts (List ℕ)
unfolding add_count
add_ranges [] starts = starts
add_ranges ((range, count) ∷ rest) starts =
    add_ranges rest (add_count before range.begin count starts)

unfoldable pub add_keys : Counts (List ℕ) → Counts (List ℕ) → Counts (List ℕ)
unfolding add_count
add_keys [] starts = starts
add_keys ((key, count) ∷ rest) starts = add_keys rest (add_count before key count starts)

-- The starting positions in `KeyCounts::buckets`
unfoldable pub starts_of : KeyCounts → Counts (List ℕ)
starts_of counts = add_ranges counts.ranges (add_keys counts.keys [])

-- What is pushed behind the loop of `KeyCounts::buckets`
abbrev pub last_bucket : Option (List ℕ) → ℕ → List Bucket
last_bucket none count = []
last_bucket (some start) count =
    if ltb 0 count then record { start = start; count = count } ∷ [] else []

abbrev pub start_or : Option (List ℕ) → List ℕ → List ℕ
start_or none key = key
start_or (some start) key = start

-- The loop of `KeyCounts::buckets`, with the number of the buckets so far
unfoldable pub bucket_loop : ℕ → ℕ → ℕ → Option (List ℕ) → ℕ → Counts (List ℕ) → List Bucket
bucket_loop n size made current_start current_count [] = last_bucket current_start current_count
bucket_loop n size made current_start current_count ((start, count) ∷ rest) =
    let continued =
      bucket_loop n size made (some (start_or current_start start)) (add_u64 current_count count)
        rest in
    let cleared = bucket_loop n size made (some start) (add_u64 0 count) rest in
    let cut = bucket_loop n size (made + 1) (some start) (add_u64 0 count) rest in
    if leb size current_count && ltb (made + 1) n
    then elim current_start [
      | some bucket_start ↦ record { start = bucket_start; count = current_count } ∷ cut
      | none ↦ cleared
    ]
    else continued

-- `total / n`, but one or more
abbrev pub bucket_size : ℕ → ℕ → ℕ
bucket_size total zero = 1
bucket_size total (suc n) = let size = total / suc n in if ltb size 1 then 1 else size

-- `KeyCounts::buckets`
unfoldable pub buckets : KeyCounts → ℕ → List Bucket
unfolding bucket_loop
buckets counts n =
    let starts = starts_of counts in
    let total = sum_from 0 starts in
    if n == 0
    then []
    else if total == 0
    then []
    else bucket_loop n (bucket_size total n) 0 none 0 starts
