-- ===== src/Profiling/Aggregate/Starts.antt =====
-- The starting positions of `KeyCounts::buckets`: all keys, and the ranges at their begins.
use foundationdb_rs.Prelude.{
  ℕ, ◌+◌, ◌<◌, ◌^◌, ◌≡◌, refl, subst, arith, Bool, true, if◌then◌else◌, List, [], ◌∷◌,
}
use foundationdb_rs.Tuple.Compare.Total.{before, before_connected}
use foundationdb_rs.Profiling.{KeyRange}
use foundationdb_rs.Profiling.Aggregate.{
  Counts, add_count, KeyCounts, add_keys, add_ranges, starts_of,
}
use foundationdb_rs.Profiling.Aggregate.Counts.{
  count_where, hits, IsPositive, count_where-add_count, IsPositive-add_count, IsAscending,
  IsAscending-add_count,
}

-- The hits of some keys, and of the ranges that begin at such a key
abbrev pub starting_where : (List ℕ → Bool) → KeyCounts → ℕ
starting_where p counts =
    count_where p counts.keys + count_where (λ (r : KeyRange). p r.begin) counts.ranges

abbrev pub all_hits : KeyCounts → ℕ
all_hits counts = hits counts.keys + hits counts.ranges

-- The starting positions: ascending, positive, and with the hits of the keys and ranges that are added
pub record Starts (starts : Counts (List ℕ)) (p : List ℕ → Bool) (found total : ℕ) : Type 0 where
  pub ascending : IsAscending starts
  pub positive : IsPositive starts
  pub same : count_where p starts ≡ found
  pub all : hits starts ≡ total

add_count-Starts :
    (starts : Counts (List ℕ)) (p : List ℕ → Bool) (found total : ℕ) (key : List ℕ) (n : ℕ)
    → 0 < n
    → n + total < 2 ^ 64
    → Starts starts p found total
    → Starts (add_count before key n starts) p ((if p key then n else 0) + found) (n + total)
add_count-Starts starts p found total key n some_n small h =
    let all = h.all in
    let fits : n + hits starts < 2 ^ 64 = omega arith in
    let counted = count_where-add_count before p key n starts before_connected fits in
    let every = count_where-add_count before (λ k. true) key n starts before_connected fits in
    record {
      ascending = IsAscending-add_count key n starts h.ascending;
      positive = IsPositive-add_count before key n starts some_n fits h.positive;
      same = rw (counted, h.same) refl;
      all = rw (every, h.all) refl;
    }

add_keys-Starts :
    (keys starts : Counts (List ℕ)) (p : List ℕ → Bool) (found total : ℕ)
    → IsPositive keys
    → hits keys + total < 2 ^ 64
    → Starts starts p found total
    → Starts (add_keys keys starts) p (count_where p keys + found) (hits keys + total)
unfolding add_keys
add_keys-Starts [] starts p found total some_n small h =
    subst (λ f. Starts starts p f (0 + total)) {x = found} {y = 0 + found} (omega arith)
      (subst (λ t. Starts starts p found t) {x = total} {y = 0 + total} (omega arith) h)
add_keys-Starts ((key, n) ∷ rest) starts p found total some_n small h =
    let first = add_count-Starts starts p found total key n some_n.0 (omega arith) h in
    let others =
      add_keys-Starts rest (add_count before key n starts) p ((if p key then n else 0) + found)
        (n + total) some_n.1 (omega arith) first in
    let starts' = add_keys rest (add_count before key n starts) in
    record {
      ascending = others.ascending;
      positive = others.positive;
      same = rw others.same (omega arith);
      all = rw others.all (omega arith);
    }

add_ranges-Starts :
    (ranges : Counts KeyRange) (starts : Counts (List ℕ)) (p : List ℕ → Bool) (found total : ℕ)
    → IsPositive ranges
    → hits ranges + total < 2 ^ 64
    → Starts starts p found total
    → Starts
        (add_ranges ranges starts)
        p
        (count_where (λ (r : KeyRange). p r.begin) ranges + found)
        (hits ranges + total)
unfolding add_ranges
add_ranges-Starts [] starts p found total some_n small h =
    subst (λ f. Starts starts p f (0 + total)) {x = found} {y = 0 + found} (omega arith)
      (subst (λ t. Starts starts p found t) {x = total} {y = 0 + total} (omega arith) h)
add_ranges-Starts ((range, n) ∷ rest) starts p found total some_n small h =
    let key = range.begin in
    let first = add_count-Starts starts p found total key n some_n.0 (omega arith) h in
    let others =
      add_ranges-Starts rest (add_count before key n starts) p ((if p key then n else 0) + found)
        (n + total) some_n.1 (omega arith) first in
    record {
      ascending = others.ascending;
      positive = others.positive;
      same = rw others.same (omega arith);
      all = rw others.all (omega arith);
    }

pub starts_of-Starts :
    (counts : KeyCounts) (p : List ℕ → Bool)
    → IsPositive counts.keys
    → IsPositive counts.ranges
    → all_hits counts < 2 ^ 64
    → Starts (starts_of counts) p (starting_where p counts) (all_hits counts)
unfolding starts_of
starts_of-Starts counts p keys ranges small =
    let none_yet : Starts [] p 0 0 = record {
      ascending = tt;
      positive = tt;
      same = refl;
      all = refl;
    } in
    let first = add_keys-Starts counts.keys [] p 0 0 keys (omega arith) none_yet in
    let both =
      add_ranges-Starts counts.ranges (add_keys counts.keys []) p (count_where p counts.keys + 0)
        (hits counts.keys + 0) ranges (omega arith) first in
    record {
      ascending = both.ascending;
      positive = both.positive;
      same = rw both.same (omega arith);
      all = rw both.all (omega arith);
    }
