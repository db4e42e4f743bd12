-- ===== src/Profiling/Aggregate/Totals.antt =====
-- The counts of an aggregator after any events, and their totals.
use foundationdb_rs.Prelude.{
  ℕ, ◌+◌, ◌<◌, ◌^◌, ◌%◌, ◌≡◌, refl, sym, ◌∙◌, arith, Bool, ◌==◌, List, [], ◌∷◌, inl, inr,
  Bool-cases,
}
use foundationdb_rs.Profiling.{KeyRange, Mutation, clear_range_type, Event}
use foundationdb_rs.Profiling.Aggregate.{
  KeyCounts, Aggregator, default, no_counts, insert_key, insert_range, record_mutation,
  record_mutations, record_event, record_events, contains, single_key_write_types, total,
}
use foundationdb_rs.Profiling.Aggregate.Counts.{hits, sum_from-hits}
use foundationdb_rs.Profiling.Aggregate.Recorded.{
  one_if, Recorded, Recorded-insert_key, Recorded-insert_range, contains-is_key_write,
  mutation_keys, mutation_ranges, mutation_hits, sum_over, keys_read, ranges_read, keys_written,
  ranges_written, hits_read, hits_written,
}

module _ (p : List ℕ → Bool) (q : KeyRange → Bool) where
  Recorded-eq :
      (counts : KeyCounts) (keys ranges all keys' ranges' all' : ℕ)
      → Recorded counts p q keys ranges all
      → keys ≡ keys'
      → ranges ≡ ranges'
      → all ≡ all'
      → Recorded counts p q keys' ranges' all'
  Recorded-eq counts keys ranges all keys' ranges' all' h a b c = rw (← a, ← b, ← c) h

  Recorded-record_mutation :
      (counts : KeyCounts) (keys ranges all : ℕ) (m : Mutation)
      → mutation_hits m + all < 2 ^ 64
      → Recorded counts p q keys ranges all
      → Recorded
          (record_mutation counts m)
          p
          q
          (mutation_keys p q m + keys)
          (mutation_ranges p q m + ranges)
          (mutation_hits m + all)
  unfolding record_mutation
  Recorded-record_mutation counts keys ranges all m small h =
      elim (Bool-cases (m.mutation_type == clear_range_type)) [
        | inl clears ↦
            let range : KeyRange = record { begin = m.param1; end = m.param2 } in
            let small' = rw clears at small in
            rw clears (
              Recorded-eq (insert_range counts range) keys (one_if (q range) + ranges) (1 + all)
                (0 + keys) (one_if (q range) + ranges) (0 + 1 + all)
                (Recorded-insert_range p q counts keys ranges all range (omega arith) h)
                (omega arith) refl (omega arith))
        | inr other ↦ elim (Bool-cases (contains m.mutation_type single_key_write_types)) [
          | inl writes ↦
              let type = sym (contains-is_key_write m.mutation_type) ∙ writes in
              let small' = rw (other, type) at small in
              rw (other, type, writes)
                (Recorded-eq (insert_key counts m.param1) (one_if (p m.param1) + keys) ranges
                  (1 + all) (one_if (p m.param1) + keys) (0 + ranges) (1 + 0 + all)
                  (Recorded-insert_key p q counts keys ranges all m.param1 (omega arith) h) refl
                  (omega arith) (omega arith))
          | inr neither ↦
              let type = sym (contains-is_key_write m.mutation_type) ∙ neither in
              rw (other, type, neither)
                (Recorded-eq counts keys ranges all (0 + keys) (0 + ranges) (0 + 0 + all) h
                  (omega arith) (omega arith) (omega arith))
        ]
      ]

  Recorded-record_mutations :
      (counts : KeyCounts) (keys ranges all : ℕ) (ms : List Mutation)
      → sum_over mutation_hits ms + all < 2 ^ 64
      → Recorded counts p q keys ranges all
      → Recorded
          (record_mutations counts ms)
          p
          q
          (sum_over (mutation_keys p q) ms + keys)
          (sum_over (mutation_ranges p q) ms + ranges)
          (sum_over mutation_hits ms + all)
  unfolding record_mutations
  Recorded-record_mutations counts keys ranges all [] small h =
      Recorded-eq counts keys ranges all (0 + keys) (0 + ranges) (0 + all) h (omega arith)
        (omega arith) (omega arith)
  Recorded-record_mutations counts keys ranges all (m ∷ ms) small h =
      let first = Recorded-record_mutation counts keys ranges all m (omega arith) h in
      let others =
        Recorded-record_mutations (record_mutation counts m) (mutation_keys p q m + keys)
          (mutation_ranges p q m + ranges) (mutation_hits m + all) ms (omega arith) first in
      Recorded-eq (record_mutations (record_mutation counts m) ms) _ _ _ _ _ _ others (omega arith)
        (omega arith) (omega arith)

  -- The counts of both kinds after an event
  record Both (a : Aggregator)
      (read_keys read_ranges read_all written_keys written_ranges written_all : ℕ) : Type 0 where
    reads : Recorded a.reads p q read_keys read_ranges read_all
    writes : Recorded a.writes p q written_keys written_ranges written_all

  Both-same :
      (a : Aggregator) (rk rr ra wk wr wa : ℕ)
      → Both a rk rr ra wk wr wa
      → Both a (0 + rk) (0 + rr) (0 + ra) (0 + wk) (0 + wr) (0 + wa)
  Both-same a rk rr ra wk wr wa h = record {
    reads = Recorded-eq a.reads _ _ _ _ _ _ h.reads (omega arith) (omega arith) (omega arith);
    writes = Recorded-eq a.writes _ _ _ _ _ _ h.writes (omega arith) (omega arith) (omega arith);
  }

  record_event-Both :
      (a : Aggregator) (rk rr ra wk wr wa : ℕ) (e : Event)
      → hits_read e + ra < 2 ^ 64
      → hits_written e + wa < 2 ^ 64
      → Both a rk rr ra wk wr wa
      → Both
          (record_event a e)
          (keys_read p q e + rk)
          (ranges_read p q e + rr)
          (hits_read e + ra)
          (keys_written p q e + wk)
          (ranges_written p q e + wr)
          (hits_written e + wa)
  unfolding record_event
  record_event-Both a rk rr ra wk wr wa (Event.get g) small small' h = record {
    reads =
        Recorded-eq (insert_key a.reads g.key) _ _ _ _ _ _
          (Recorded-insert_key p q a.reads rk rr ra g.key small h.reads) refl (omega arith) refl;
    writes = Recorded-eq a.writes _ _ _ _ _ _ h.writes (omega arith) (omega arith) (omega arith);
  }
  record_event-Both a rk rr ra wk wr wa (Event.get_range g) small small' h = record {
    reads =
        Recorded-eq (insert_range a.reads g.range) _ _ _ _ _ _
          (Recorded-insert_range p q a.reads rk rr ra g.range small h.reads) (omega arith) refl
          refl;
    writes = Recorded-eq a.writes _ _ _ _ _ _ h.writes (omega arith) (omega arith) (omega arith);
  }
  record_event-Both a rk rr ra wk wr wa (Event.commit c) small small' h = record {
    reads = Recorded-eq a.reads _ _ _ _ _ _ h.reads (omega arith) (omega arith) (omega arith);
    writes = Recorded-record_mutations a.writes wk wr wa (c.request).mutations small' h.writes;
  }
  record_event-Both a rk rr ra wk wr wa (Event.get_version g) small small' h =
      Both-same a rk rr ra wk wr wa h
  record_event-Both a rk rr ra wk wr wa (Event.get_error g) small small' h =
      Both-same a rk rr ra wk wr wa h
  record_event-Both a rk rr ra wk wr wa (Event.get_range_error g) small small' h =
      Both-same a rk rr ra wk wr wa h
  record_event-Both a rk rr ra wk wr wa (Event.commit_error g) small small' h =
      Both-same a rk rr ra wk wr wa h

  record_events-Both :
      (a : Aggregator) (rk rr ra wk wr wa : ℕ) (es : List Event)
      → sum_over hits_read es + ra < 2 ^ 64
      → sum_over hits_written es + wa < 2 ^ 64
      → Both a rk rr ra wk wr wa
      → Both
          (record_events a es)
          (sum_over (keys_read p q) es + rk)
          (sum_over (ranges_read p q) es + rr)
          (sum_over hits_read es + ra)
          (sum_over (keys_written p q) es + wk)
          (sum_over (ranges_written p q) es + wr)
          (sum_over hits_written es + wa)
  unfolding record_events
  record_events-Both a rk rr ra wk wr wa [] small small' h = Both-same a rk rr ra wk wr wa h
  record_events-Both a rk rr ra wk wr wa (e ∷ es) small small' h =
      let first = record_event-Both a rk rr ra wk wr wa e (omega arith) (omega arith) h in
      let b = record_event a e in
      let others =
        record_events-Both b (keys_read p q e + rk) (ranges_read p q e + rr) (hits_read e + ra)
          (keys_written p q e + wk) (ranges_written p q e + wr) (hits_written e + wa) es
          (omega arith) (omega arith) first in
      record {
        reads =
            Recorded-eq (record_events b es).reads _ _ _ _ _ _ others.reads (omega arith)
              (omega arith) (omega arith);
        writes =
            Recorded-eq (record_events b es).writes _ _ _ _ _ _ others.writes (omega arith)
              (omega arith) (omega arith);
      }

total-Recorded :
    (counts : KeyCounts) (p : List ℕ → Bool) (q : KeyRange → Bool) (keys ranges all : ℕ)
    → all < 2 ^ 64
    → Recorded counts p q keys ranges all
    → total counts ≡ all
unfolding total
total-Recorded counts p q keys ranges all small h =
    let every = h.of_all in
    let first = sum_from-hits 0 counts.keys (omega arith) in
    let second = sum_from-hits 0 counts.ranges (omega arith) in
    let sum : (hits counts.keys + hits counts.ranges) % 2 ^ 64 ≡ all = omega arith in
    omega (arith, first, second)

-- After an aggregator has recorded some events, of which less than 2^64 hits are counted, reads and
-- writes each: the counts of the keys of any kind, and of the ranges of any kind, are the numbers of
-- their reads by gets and range reads and of their writes by the mutations of commits, the totals are
-- those of all reads and of all writes, and no count is zero.
pub record_events-Recorded :
    (p : List ℕ → Bool) (q : KeyRange → Bool) (es : List Event)
    → sum_over hits_read es < 2 ^ 64
    → sum_over hits_written es < 2 ^ 64
    → Recorded
        (record_events default es).reads
        p
        q
        (sum_over (keys_read p q) es)
        (sum_over (ranges_read p q) es)
        (sum_over hits_read es)
      × Recorded
          (record_events default es).writes
          p
          q
          (sum_over (keys_written p q) es)
          (sum_over (ranges_written p q) es)
          (sum_over hits_written es)
      × ((total (record_events default es).reads ≡ sum_over hits_read es)
          × (total (record_events default es).writes ≡ sum_over hits_written es))
record_events-Recorded p q es small small' =
    let a = record_events default es in
    let nothing : Recorded no_counts p q 0 0 0 = record {
      of_keys = refl;
      of_ranges = refl;
      of_all = omega arith;
      positive_keys = tt;
      positive_ranges = tt;
    } in
    let both =
      record_events-Both p q default 0 0 0 0 0 0 es (omega arith) (omega arith)
        (record { reads = nothing; writes = nothing }) in
    let reads : Recorded a.reads p q (sum_over (keys_read p q) es) (sum_over (ranges_read p q) es)
        (sum_over hits_read es) =
      Recorded-eq p q a.reads _ _ _ _ _ _ both.reads (omega arith) (omega arith) (omega arith) in
    let writes : Recorded a.writes p q (sum_over (keys_written p q) es)
        (sum_over (ranges_written p q) es) (sum_over hits_written es) =
      Recorded-eq p q a.writes _ _ _ _ _ _ both.writes (omega arith) (omega arith) (omega arith) in
    (
      reads,
      writes,
      (
        total-Recorded a.reads p q _ _ _ small reads,
        total-Recorded a.writes p q _ _ _ small' writes,
      ),
    )
