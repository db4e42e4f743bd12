-- ===== src/Budget/Counters.antt =====
-- What the counters of an attempt hold after the operations of the attempt.
use foundationdb_rs.Prelude.{
  ℕ, ◌+◌, ◌-◌, ◌%◌, ◌^◌, ◌≡◌, ◌<◌, ◌⊎◌, inl, inr, refl, List, [], ◌∷◌, Option, arith,
}
use foundationdb_rs.Budget.{
  Clock, AttemptUsage, clock_or_wall, with_clock, elapsed, snapshot, record_get, record_get_range,
  record_set, record_clear, record_clear_range, record_atomic_op, add_u64,
}

-- The operation that an attempt issued, with its bytes and the key-values it returned.
pub data Recording : Type 0 where
  get get_range : ℕ → ℕ → Recording
  set clear clear_range atomic_op : ℕ → Recording

unfoldable pub record_one : AttemptUsage → Recording → AttemptUsage
record_one usage (Recording.get bytes keys_values) = record_get usage bytes keys_values
record_one usage (Recording.get_range bytes keys_values) = record_get_range usage bytes keys_values
record_one usage (Recording.set bytes) = record_set usage bytes
record_one usage (Recording.clear bytes) = record_clear usage bytes
record_one usage (Recording.clear_range bytes) = record_clear_range usage bytes
record_one usage (Recording.atomic_op bytes) = record_atomic_op usage bytes

unfoldable pub record_all : AttemptUsage → List Recording → AttemptUsage
record_all usage [] = usage
record_all usage (r ∷ rs) = record_all (record_one usage r) rs

-- What an operation counts for: bytes read, bytes written, key-values and each kind of call.
abbrev pub Weight : Type 0
Weight = Recording → ℕ

abbrev pub read_of : Weight
read_of (Recording.get bytes keys_values) = bytes
read_of (Recording.get_range bytes keys_values) = bytes
read_of _ = 0

abbrev pub written_of : Weight
written_of (Recording.set bytes) = bytes
written_of (Recording.clear bytes) = bytes
written_of (Recording.clear_range bytes) = bytes
written_of (Recording.atomic_op bytes) = bytes
written_of _ = 0

abbrev pub fetched_of : Weight
fetched_of (Recording.get bytes keys_values) = keys_values
fetched_of (Recording.get_range bytes keys_values) = keys_values
fetched_of _ = 0

abbrev pub get_of : Weight
get_of (Recording.get bytes keys_values) = 1
get_of _ = 0

abbrev pub range_of : Weight
range_of (Recording.get_range bytes keys_values) = 1
range_of _ = 0

abbrev pub set_of : Weight
set_of (Recording.set bytes) = 1
set_of _ = 0

abbrev pub clear_of : Weight
clear_of (Recording.clear bytes) = 1
clear_of _ = 0

abbrev pub clear_range_of : Weight
clear_range_of (Recording.clear_range bytes) = 1
clear_range_of _ = 0

abbrev pub atomic_of : Weight
atomic_of (Recording.atomic_op bytes) = 1
atomic_of _ = 0

abbrev pub total : Weight → List Recording → ℕ
total weight [] = 0
total weight (r ∷ rs) = weight r + total weight rs

-- An operation adds its weight to a counter, or leaves the counter alone as it weighs nothing.
abbrev Counts : (AttemptUsage → ℕ) → Weight → Type 0
Counts counter weight =
    (usage : AttemptUsage) (r : Recording)
    → (counter (record_one usage r) ≡ add_u64 (counter usage) (weight r))
      ⊎ ((counter (record_one usage r) ≡ counter usage) × (weight r ≡ 0))

module _ (counter : AttemptUsage → ℕ) (weight : Weight) (one : Counts counter weight) where
  counted :
      (usage : AttemptUsage) (rs : List Recording)
      → counter usage < 2 ^ 64
      → counter (record_all usage rs) ≡ (counter usage + total weight rs) % 2 ^ 64
  unfolding record_all
  counted usage [] h = omega arith
  counted usage (r ∷ rs) h = elim (one usage r) [
    | inl e ↦ rw (counted (record_one usage r) rs (rw e (omega arith)), e) (omega arith)
    | inr (e, z) ↦ rw (counted (record_one usage r) rs (rw e h), e, z) (omega arith)
  ]

  counted_fresh :
      (usage : AttemptUsage) (rs : List Recording)
      → counter usage ≡ 0
      → counter (record_all usage rs) ≡ total weight rs % 2 ^ 64
  counted_fresh usage rs h = rw (counted usage rs (rw h (omega arith)), h) (omega arith)

Counts-read : Counts (λ u. u.bytes_read) read_of
unfolding record_one record_get record_get_range record_set record_clear record_clear_range
    record_atomic_op
Counts-read usage (Recording.get bytes keys_values) = inl refl
Counts-read usage (Recording.get_range bytes keys_values) = inl refl
Counts-read usage _ = inr (refl, refl)

Counts-written : Counts (λ u. u.bytes_written) written_of
unfolding record_one record_get record_get_range record_set record_clear record_clear_range
    record_atomic_op
Counts-written usage (Recording.set bytes) = inl refl
Counts-written usage (Recording.clear bytes) = inl refl
Counts-written usage (Recording.clear_range bytes) = inl refl
Counts-written usage (Recording.atomic_op bytes) = inl refl
Counts-written usage _ = inr (refl, refl)

Counts-fetched : Counts (λ u. u.keys_values_fetched) fetched_of
unfolding record_one record_get record_get_range record_set record_clear record_clear_range
    record_atomic_op
Counts-fetched usage (Recording.get bytes keys_values) = inl refl
Counts-fetched usage (Recording.get_range bytes keys_values) = inl refl
Counts-fetched usage _ = inr (refl, refl)

Counts-get : Counts (λ u. u.call_get) get_of
unfolding record_one record_get record_get_range record_set record_clear record_clear_range
    record_atomic_op
Counts-get usage (Recording.get bytes keys_values) = inl refl
Counts-get usage _ = inr (refl, refl)

Counts-range : Counts (λ u. u.call_get_range) range_of
unfolding record_one record_get record_get_range record_set record_clear record_clear_range
    record_atomic_op
Counts-range usage (Recording.get_range bytes keys_values) = inl refl
Counts-range usage _ = inr (refl, refl)

Counts-set : Counts (λ u. u.call_set) set_of
unfolding record_one record_get record_get_range record_set record_clear record_clear_range
    record_atomic_op
Counts-set usage (Recording.set bytes) = inl refl
Counts-set usage _ = inr (refl, refl)

Counts-clear : Counts (λ u. u.call_clear) clear_of
unfolding record_one record_get record_get_range record_set record_clear record_clear_range
    record_atomic_op
Counts-clear usage (Recording.clear bytes) = inl refl
Counts-clear usage _ = inr (refl, refl)

Counts-clear_range : Counts (λ u. u.call_clear_range) clear_range_of
unfolding record_one record_get record_get_range record_set record_clear record_clear_range
    record_atomic_op
Counts-clear_range usage (Recording.clear_range bytes) = inl refl
Counts-clear_range usage _ = inr (refl, refl)

Counts-atomic : Counts (λ u. u.call_atomic_op) atomic_of
unfolding record_one record_get record_get_range record_set record_clear record_clear_range
    record_atomic_op
Counts-atomic usage (Recording.atomic_op bytes) = inl refl
Counts-atomic usage _ = inr (refl, refl)

record_one-clock :
    (usage : AttemptUsage) (r : Recording)
    → ((record_one usage r).clock ≡ usage.clock)
      × ((record_one usage r).started_at ≡ usage.started_at)
unfolding record_one record_get record_get_range record_set record_clear record_clear_range
    record_atomic_op
record_one-clock usage (Recording.get bytes keys_values) = (refl, refl)
record_one-clock usage _ = (refl, refl)

-- The clock and the start of an attempt stay as they are.
record_all-clock :
    (usage : AttemptUsage) (rs : List Recording)
    → ((record_all usage rs).clock ≡ usage.clock)
      × ((record_all usage rs).started_at ≡ usage.started_at)
unfolding record_all
record_all-clock usage [] = (refl, refl)
record_all-clock usage (r ∷ rs) =
    let (c, s) = record_all-clock (record_one usage r) rs in
    let (c', s') = record_one-clock usage r in (rw c c', rw s s')

-- The usage of a fresh attempt after any operations of it: the time since it began by its clock, the
-- bytes read, the bytes written and the key-values fetched by the operations, and the number of the
-- calls of each kind, all sums modulo 2^64, whatever the order of the operations.
pub snapshot-record_all :
    (clock : Option Clock) (instant later : ℕ) (rs : List Recording)
    → snapshot (record_all (with_clock clock instant) rs) later ≡ record {
      elapsed = clock_or_wall clock instant later - clock_or_wall clock instant instant;
      bytes_read = total read_of rs % 2 ^ 64;
      bytes_written = total written_of rs % 2 ^ 64;
      keys_values_fetched = total fetched_of rs % 2 ^ 64;
      call_get = total get_of rs % 2 ^ 64;
      call_get_range = total range_of rs % 2 ^ 64;
      call_set = total set_of rs % 2 ^ 64;
      call_clear = total clear_of rs % 2 ^ 64;
      call_clear_range = total clear_range_of rs % 2 ^ 64;
      call_atomic_op = total atomic_of rs % 2 ^ 64;
    }
unfolding snapshot elapsed with_clock
snapshot-record_all clock instant later rs =
    let usage = with_clock clock instant in
    let (clocks, starts) = record_all-clock usage rs in
    rw
      (
        clocks,
        starts,
        counted_fresh (λ u. u.bytes_read) read_of Counts-read usage rs refl,
        counted_fresh (λ u. u.bytes_written) written_of Counts-written usage rs refl,
        counted_fresh (λ u. u.keys_values_fetched) fetched_of Counts-fetched usage rs refl,
        counted_fresh (λ u. u.call_get) get_of Counts-get usage rs refl,
        counted_fresh (λ u. u.call_get_range) range_of Counts-range usage rs refl,
        counted_fresh (λ u. u.call_set) set_of Counts-set usage rs refl,
        counted_fresh (λ u. u.call_clear) clear_of Counts-clear usage rs refl,
        counted_fresh (λ u. u.call_clear_range) clear_range_of Counts-clear_range usage rs refl,
        counted_fresh (λ u. u.call_atomic_op) atomic_of Counts-atomic usage rs refl,
      )
      refl
