-- ===== src/Budget.antt =====
-- foundationdb/src/budget.rs, with the calls of it in transaction.rs: the usage of a transaction
-- attempt and the limits of the client's budget. A `Duration` is its number of nanoseconds, a counter
-- is an `AtomicU64`, which wraps around. A clock is its `monotonic` reading at each instant.
pub mod Limits
pub mod Check
pub mod Counters
pub mod Attempts
pub mod Custom
mod Tests
use foundationdb_rs.Prelude.{
  ℕ, ◌+◌, ◌-◌, ◌/◌, ◌%◌, ◌^◌, Bool, true, false, ◌&&◌, Option, none, some, List, [], ◌∷◌, ltb,
  if◌then◌else◌, Result, ok, err, ◌>>=◌,
}
use foundationdb_rs.Tuple.Versionstamp.{same_bytes}

abbrev pub Clock : Type 0
Clock = ℕ → ℕ

-- `WallClock::new` at an instant: its `monotonic` reads what elapsed since its anchor.
unfoldable pub wall_clock : ℕ → Clock
wall_clock anchor instant = instant - anchor

pub record ClientBudget : Type 0 where
  pub time_limit : Option ℕ
  pub max_bytes_read : Option ℕ
  pub max_bytes_written : Option ℕ
  pub clock : Option Clock

pub data BudgetKind : Type 0 where
  time bytes_read bytes_written : BudgetKind

pub record BudgetExceeded : Type 0 where
  pub kind : BudgetKind
  pub used : ℕ
  pub limit : ℕ

pub record MetricKey : Type 0 where
  pub name : List ℕ
  pub labels : List (List ℕ × List ℕ)

-- The map of the application metrics, with one entry for a key.
abbrev pub Metrics : Type 0
Metrics = List (MetricKey × ℕ)

pub record AttemptUsage : Type 0 where
  pub clock : Clock
  pub started_at : ℕ
  pub bytes_read : ℕ
  pub bytes_written : ℕ
  pub keys_values_fetched : ℕ
  pub call_get : ℕ
  pub call_get_range : ℕ
  pub call_set : ℕ
  pub call_clear : ℕ
  pub call_clear_range : ℕ
  pub call_atomic_op : ℕ
  pub custom : Option Metrics

-- `clock.unwrap_or_else(|| Arc::new(WallClock::new()))`
abbrev pub clock_or_wall : Option Clock → ℕ → Clock
clock_or_wall none instant = wall_clock instant
clock_or_wall (some clock) instant = clock

-- `AttemptUsage::with_clock`
unfoldable pub with_clock : Option Clock → ℕ → AttemptUsage
with_clock clock instant = record {
  clock = clock_or_wall clock instant;
  started_at = clock_or_wall clock instant instant;
  bytes_read = 0;
  bytes_written = 0;
  keys_values_fetched = 0;
  call_get = 0;
  call_get_range = 0;
  call_set = 0;
  call_clear = 0;
  call_clear_range = 0;
  call_atomic_op = 0;
  custom = none;
}

-- `AttemptUsage::elapsed`; `saturating_sub` is the subtraction of natural numbers.
unfoldable pub elapsed : AttemptUsage → ℕ → ℕ
elapsed usage instant = usage.clock instant - usage.started_at

-- `as_millis() as u64`
unfoldable pub millis : ℕ → ℕ
millis duration = duration / 1_000_000 % 2 ^ 64

-- One limit of `ClientBudget::check`.
abbrev pub check_limit : BudgetKind → Option ℕ → ℕ → Result BudgetExceeded (Unit {0})
check_limit kind none used = ok tt
check_limit kind (some limit) used =
    if ltb limit used then err (record { kind = kind; used = used; limit = limit }) else ok tt

abbrev pub map_millis : Option ℕ → Option ℕ
map_millis none = none
map_millis (some limit) = some (millis limit)

-- `ClientBudget::check`
unfoldable pub check : ClientBudget → AttemptUsage → ℕ → Result BudgetExceeded (Unit {0})
check budget usage instant =
    check_limit BudgetKind.time (map_millis budget.time_limit) (millis (elapsed usage instant))
    >>= (λ _. check_limit BudgetKind.bytes_read budget.max_bytes_read usage.bytes_read >>= (λ _.
        check_limit BudgetKind.bytes_written budget.max_bytes_written usage.bytes_written))

-- `fetch_add` of an `AtomicU64`, and `+=` of a `u64` in a release build
abbrev pub add_u64 : ℕ → ℕ → ℕ
add_u64 a b = (a + b) % 2 ^ 64

unfoldable pub record_get : AttemptUsage → ℕ → ℕ → AttemptUsage
record_get usage bytes keys_values = record usage {
  bytes_read = add_u64 usage.bytes_read bytes;
  keys_values_fetched = add_u64 usage.keys_values_fetched keys_values;
  call_get = add_u64 usage.call_get 1;
}

unfoldable pub record_get_range : AttemptUsage → ℕ → ℕ → AttemptUsage
record_get_range usage bytes keys_values = record usage {
  bytes_read = add_u64 usage.bytes_read bytes;
  keys_values_fetched = add_u64 usage.keys_values_fetched keys_values;
  call_get_range = add_u64 usage.call_get_range 1;
}

unfoldable pub record_set : AttemptUsage → ℕ → AttemptUsage
record_set usage bytes = record usage {
  bytes_written = add_u64 usage.bytes_written bytes;
  call_set = add_u64 usage.call_set 1;
}

unfoldable pub record_clear : AttemptUsage → ℕ → AttemptUsage
record_clear usage bytes = record usage {
  bytes_written = add_u64 usage.bytes_written bytes;
  call_clear = add_u64 usage.call_clear 1;
}

unfoldable pub record_clear_range : AttemptUsage → ℕ → AttemptUsage
record_clear_range usage bytes = record usage {
  bytes_written = add_u64 usage.bytes_written bytes;
  call_clear_range = add_u64 usage.call_clear_range 1;
}

unfoldable pub record_atomic_op : AttemptUsage → ℕ → AttemptUsage
record_atomic_op usage bytes = record usage {
  bytes_written = add_u64 usage.bytes_written bytes;
  call_atomic_op = add_u64 usage.call_atomic_op 1;
}

pub record UsageSnapshot : Type 0 where
  pub elapsed : ℕ
  pub bytes_read : ℕ
  pub bytes_written : ℕ
  pub keys_values_fetched : ℕ
  pub call_get : ℕ
  pub call_get_range : ℕ
  pub call_set : ℕ
  pub call_clear : ℕ
  pub call_clear_range : ℕ
  pub call_atomic_op : ℕ

-- `AttemptUsage::snapshot`
unfoldable pub snapshot : AttemptUsage → ℕ → UsageSnapshot
snapshot usage instant = record {
  elapsed = elapsed usage instant;
  bytes_read = usage.bytes_read;
  bytes_written = usage.bytes_written;
  keys_values_fetched = usage.keys_values_fetched;
  call_get = usage.call_get;
  call_get_range = usage.call_get_range;
  call_set = usage.call_set;
  call_clear = usage.call_clear;
  call_clear_range = usage.call_clear_range;
  call_atomic_op = usage.call_atomic_op;
}
