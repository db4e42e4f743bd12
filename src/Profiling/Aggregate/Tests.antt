-- ===== src/Profiling/Aggregate/Tests.antt =====
-- The theorems on aggregated profiles at concrete inputs.
use foundationdb_rs.Prelude.{
  ℕ, ◌≡◌, refl, arith, Bool, true, false, none, List, [], ◌∷◌, length, pos, ◌==◌,
}
use foundationdb_rs.Profiling.{EventHeader, KeyRange, Event}
use foundationdb_rs.Profiling.Aggregate.{
  KeyCounts, default, record_events, buckets, starts_of, total, add_count, bucket_loop, sum_from,
  add_ranges, add_keys,
}
use foundationdb_rs.Profiling.Aggregate.Recorded.{Recorded, is_key_write}
use foundationdb_rs.Profiling.Aggregate.Totals.{record_events-Recorded}

abbrev no_header : EventHeader
no_header = record { start_timestamp = 0; dc_id = []; tenant = none }

abbrev short_key : List ℕ → Bool
short_key k = length k == 1

abbrev any_range : KeyRange → Bool
any_range r = true

abbrev get_of : ℕ → Event
get_of k = Event.get (record { header = no_header; latency = 0; value_size = pos 0; key = k ∷ [] })

abbrev some_commit : Event
some_commit = Event.commit (record {
  header = no_header;
  latency = 0;
  num_mutations = pos 2;
  commit_bytes = pos 0;
  commit_version = pos 0;
  request = record {
    read_conflict_ranges = [];
    write_conflict_ranges = [];
    mutations =
        record { mutation_type = 0; param1 = 5 ∷ []; param2 = [] }
        ∷ record { mutation_type = 1; param1 = 5 ∷ []; param2 = 6 ∷ [] }
        ∷ record { mutation_type = 14; param1 = 7 ∷ []; param2 = [] }
        ∷ [];
    read_snapshot = pos 0;
    report_conflicting_keys = false;
    lock_aware = false;
    span_context = none;
  };
})

abbrev some_events : List Event
some_events = get_of 5 ∷ some_commit ∷ get_of 4 ∷ get_of 5 ∷ []

record_events-Recorded_example :
    Recorded (record_events default some_events).reads short_key any_range 3 0 3
    × Recorded (record_events default some_events).writes short_key any_range 1 1 2
    × ((total (record_events default some_events).reads ≡ 3)
        × (total (record_events default some_events).writes ≡ 2))
unfolding is_key_write
record_events-Recorded_example =
    record_events-Recorded short_key any_range some_events (omega arith) (omega arith)

-- Three hits at two keys, and a range
abbrev some_counts : KeyCounts
some_counts = record {
  keys = (4 ∷ [], 1) ∷ (5 ∷ [], 2) ∷ [];
  ranges = (record { begin = 4 ∷ []; end = 9 ∷ [] }, 1) ∷ [];
}

some_buckets :
    buckets some_counts 2
    ≡ record { start = 4 ∷ []; count = 2 } ∷ record { start = 5 ∷ []; count = 2 } ∷ []
unfolding buckets starts_of add_count bucket_loop sum_from add_ranges add_keys
some_buckets = refl
