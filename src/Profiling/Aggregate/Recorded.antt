-- ===== src/Profiling/Aggregate/Recorded.antt =====
-- Hits and what counts say of them: the hits of an event, stated apart from the code.
use foundationdb_rs.Prelude.{
  ℕ, ◌+◌, ◌<◌, ◌^◌, ◌≡◌, refl, arith, Bool, true, not, ltb, ◌&&◌, ◌||◌, if◌then◌else◌, ◌==◌, List,
  [], ◌∷◌, Ordering,
}
use foundationdb_rs.Tuple.Compare.Total.{before, before_connected}
use foundationdb_rs.Tuple.Compare.{cmp_bytes}
use foundationdb_rs.Tuple.Compare.Bytewise.{cmp_bytes_self}
use foundationdb_rs.Profiling.{KeyRange, Mutation, clear_range_type, Event}
use foundationdb_rs.Profiling.Aggregate.{
  KeyCounts, insert_key, insert_range, contains, single_key_write_types, range_before,
}
use foundationdb_rs.Profiling.Aggregate.Counts.{
  count_where, hits, IsPositive, IsConnected, count_where-add_count, IsPositive-add_count,
}

-- One hit where a key is of some kind
abbrev pub one_if : Bool → ℕ
one_if b = if b then 1 else 0

-- The counts of the keys and of the ranges of some kinds, and of all
pub record Recorded (counts : KeyCounts) (p : List ℕ → Bool) (q : KeyRange → Bool)
    (keys ranges all : ℕ) : Type 0 where
  pub of_keys : count_where p counts.keys ≡ keys
  pub of_ranges : count_where q counts.ranges ≡ ranges
  pub of_all : hits counts.keys + hits counts.ranges ≡ all
  pub positive_keys : IsPositive counts.keys
  pub positive_ranges : IsPositive counts.ranges

range_before-IsConnected : IsConnected range_before
range_before-IsConnected a b h k =
    let begins : a.begin ≡ b.begin =
      before_connected a.begin b.begin (ground arith) (ground arith) in
    let left : cmp_bytes a.begin b.begin ≡ Ordering.eq = rw begins (cmp_bytes_self b.begin) in
    let right : cmp_bytes b.begin a.begin ≡ Ordering.eq = rw begins (cmp_bytes_self b.begin) in
    let ends : a.end ≡ b.end = before_connected a.end b.end (ground arith) (ground arith) in cc

-- The types of the mutations that write one key, apart from the code's list: the types below 21, without
-- the clearing of a range, the types 3, 4, 5, 10 and 11 that no commit of a client carries, and 14, the
-- versionstamped key.
unfoldable pub is_key_write : ℕ → Bool
is_key_write t =
    ltb t 21
    && not (t == 1 || (t == 3 || (t == 4 || (t == 5 || (t == 10 || (t == 11 || t == 14))))))

pub contains-is_key_write : (t : ℕ) → contains t single_key_write_types ≡ is_key_write t
unfolding is_key_write
contains-is_key_write t = grind arith

module _ (p : List ℕ → Bool) (q : KeyRange → Bool) where
  pub Recorded-insert_key :
      (counts : KeyCounts) (keys ranges all : ℕ) (key : List ℕ)
      → 1 + all < 2 ^ 64
      → Recorded counts p q keys ranges all
      → Recorded (insert_key counts key) p q (one_if (p key) + keys) ranges (1 + all)
  unfolding insert_key
  Recorded-insert_key counts keys ranges all key small h =
      let every = h.of_all in
      let fits : 1 + hits counts.keys < 2 ^ 64 = omega arith in
      let found = count_where-add_count before p key 1 counts.keys before_connected fits in
      let all_found =
        count_where-add_count before (λ k. true) key 1 counts.keys before_connected fits in
      record {
        of_keys = rw (found, h.of_keys) refl;
        of_ranges = h.of_ranges;
        of_all = rw all_found (omega arith);
        positive_keys =
            IsPositive-add_count before key 1 counts.keys (omega arith) fits h.positive_keys;
        positive_ranges = h.positive_ranges;
      }

  pub Recorded-insert_range :
      (counts : KeyCounts) (keys ranges all : ℕ) (range : KeyRange)
      → 1 + all < 2 ^ 64
      → Recorded counts p q keys ranges all
      → Recorded (insert_range counts range) p q keys (one_if (q range) + ranges) (1 + all)
  unfolding insert_range
  Recorded-insert_range counts keys ranges all range small h =
      let every = h.of_all in
      let fits : 1 + hits counts.ranges < 2 ^ 64 = omega arith in
      let found =
        count_where-add_count range_before q range 1 counts.ranges range_before-IsConnected fits in
      let all_found =
        count_where-add_count range_before (λ r. true) range 1 counts.ranges
          range_before-IsConnected fits in
      record {
        of_keys = h.of_keys;
        of_ranges = rw (found, h.of_ranges) refl;
        of_all = rw all_found (omega arith);
        positive_keys = h.positive_keys;
        positive_ranges =
            IsPositive-add_count range_before range 1 counts.ranges (omega arith) fits
              h.positive_ranges;
      }

  abbrev pub mutation_keys : Mutation → ℕ
  mutation_keys m =
      if m.mutation_type == clear_range_type
      then 0
      else if is_key_write m.mutation_type
      then one_if (p m.param1)
      else 0

  abbrev pub mutation_ranges : Mutation → ℕ
  mutation_ranges m =
      if m.mutation_type == clear_range_type
      then one_if (q (record { begin = m.param1; end = m.param2 }))
      else 0

abbrev pub mutation_hits : Mutation → ℕ
mutation_hits m =
    mutation_keys (λ k. true) (λ r. true) m + mutation_ranges (λ k. true) (λ r. true) m

abbrev pub sum_over : {A : Type 0} → (A → ℕ) → List A → ℕ
sum_over f [] = 0
sum_over f (x ∷ xs) = f x + sum_over f xs

module _ (p : List ℕ → Bool) (q : KeyRange → Bool) where
  -- The keys of some kind that an event reads, and the ranges
  abbrev pub keys_read : Event → ℕ
  keys_read e = elim e [ Event.get g ↦ one_if (p g.key) | _ ↦ 0 ]

  abbrev pub ranges_read : Event → ℕ
  ranges_read e = elim e [ Event.get_range g ↦ one_if (q g.range) | _ ↦ 0 ]

  -- The keys of some kind that an event writes, and the ranges
  abbrev pub keys_written : Event → ℕ
  keys_written e = elim e [
    | Event.commit c ↦ sum_over (mutation_keys p q) (c.request).mutations
    | _ ↦ 0
  ]

  abbrev pub ranges_written : Event → ℕ
  ranges_written e = elim e [
    | Event.commit c ↦ sum_over (mutation_ranges p q) (c.request).mutations
    | _ ↦ 0
  ]

-- All that an event reads, and that it writes
abbrev pub hits_read : Event → ℕ
hits_read e = elim e [ Event.get g ↦ 1 | Event.get_range g ↦ 1 | _ ↦ 0 ]

abbrev pub hits_written : Event → ℕ
hits_written e = elim e [ Event.commit c ↦ sum_over mutation_hits (c.request).mutations | _ ↦ 0 ]
