-- ===== src/Budget/Tests.antt =====
-- The theorems on the budget at concrete inputs.
use foundationdb_rs.Prelude.{
  ℕ, ◌+◌, ◌%◌, ◌^◌, ◌≡◌, ◌≢◌, ◌↔◌, refl, ap, none, some, List, [], ◌∷◌, ok, err, arith,
}
use foundationdb_rs.Budget.{
  Clock, ClientBudget, BudgetKind, BudgetExceeded, AttemptUsage, MetricKey, with_clock, check,
  snapshot, millis, elapsed, record_get, record_get_range, record_set,
}
use foundationdb_rs.Budget.Limits.{IsShort, KeepsRead, KeepsWritten}
use foundationdb_rs.Budget.Check.{spent, KeepsTime, IsFirst, check_iff}
use foundationdb_rs.Budget.Counters.{Recording, record_one, record_all, snapshot-record_all}
use foundationdb_rs.Budget.Attempts.{
  Transaction, current, attempt_usage, check_client_budget, begin_attempt_usage, set_client_budget,
  clear_client_budget, finish_all, attempts_lem,
}
use foundationdb_rs.Budget.Custom.{
  lookup, set_custom, increment_custom, custom_metrics, or_zero, custom_lem,
}

-- A clock that reads the instants themselves
abbrev instants : Clock
instants instant = instant

abbrev limits : ClientBudget
limits = record {
  time_limit = some 2_000_000_000;
  max_bytes_read = some 100;
  max_bytes_written = none;
  clock = some instants;
}

abbrev recordings : List Recording
recordings = Recording.get 60 1 ∷ Recording.set 7 ∷ Recording.get_range 50 3 ∷ []

abbrev usage : AttemptUsage
usage = record_all (with_clock (some instants) 1_000) recordings

limit-IsShort : (l : ℕ) → limits.time_limit ≡ some l → IsShort l
limit-IsShort l e = let same : 2_000_000_000 ≡ l = cc in omega arith

time-IsShort : IsShort (spent usage 5_000)
unfolding record_all record_one with_clock record_get record_get_range record_set
time-IsShort = omega arith

-- A limit of 500 microseconds lets 900 microseconds pass: both are no whole millisecond.
sub_millisecond :
    check (record limits { time_limit = some 500_000 }) (with_clock (some instants) 0) 900_000
    ≡ ok tt
unfolding check elapsed millis with_clock
sub_millisecond = refl

check_iff_example :
    ((check limits usage 5_000 ≡ ok tt) ↔ (
      KeepsTime limits usage 5_000
      × (KeepsRead limits usage 5_000 × KeepsWritten limits usage 5_000)))
    × ((e : BudgetExceeded) → (check limits usage 5_000 ≡ err e) ↔ IsFirst limits usage 5_000 e)
check_iff_example = check_iff limits usage 5_000 limit-IsShort time-IsShort

-- The bytes read go over the limit.
too_much_read :
    check limits usage 5_000
    ≡ err (record { kind = BudgetKind.bytes_read; used = 110; limit = 100 })
unfolding check millis elapsed record_all record_one record_get_range record_set record_get
    with_clock
too_much_read = refl

snapshot-record_all_example : snapshot usage 5_000 ≡ record {
  elapsed = 4_000;
  bytes_read = 110;
  bytes_written = 7;
  keys_values_fetched = 4;
  call_get = 1;
  call_get_range = 1;
  call_set = 1;
  call_clear = 0;
  call_clear_range = 0;
  call_atomic_op = 0;
}
snapshot-record_all_example = snapshot-record_all (some instants) 1_000 5_000 recordings

abbrev transaction : Transaction
transaction = record { attempts = λ n. with_clock (some instants) 0; slot = 3; budget = limits }

-- The first recording is late: it belongs to the attempt 3, and the new one is 4.
abbrev events : List (ℕ × Recording)
events = (3, Recording.get 500 2) ∷ (4, Recording.set 7) ∷ []

attempts_lem_example :
    ((attempt_usage (finish_all (begin_attempt_usage transaction 1_000) events) 5_000
        ≡ snapshot (record_all (with_clock (some instants) 1_000) (Recording.set 7 ∷ [])) 5_000)
      × (check_client_budget (finish_all (begin_attempt_usage transaction 1_000) events) 5_000
          ≡ check limits
              (record_all (with_clock (some instants) 1_000) (Recording.set 7 ∷ []))
              5_000))
    × ((check_client_budget (finish_all (set_client_budget transaction limits 1_000) events) 5_000
          ≡ check limits
              (record_all (with_clock (some instants) 1_000) (Recording.set 7 ∷ []))
              5_000)
        × (check_client_budget (clear_client_budget transaction) 5_000 ≡ ok tt))
unfolding current
attempts_lem_example = attempts_lem transaction 1_000 5_000 events limits

abbrev rows : MetricKey
rows = record { name = 114 ∷ []; labels = [] }

abbrev bytes_of : MetricKey
bytes_of = record { name = 98 ∷ []; labels = [] }

names_apart : bytes_of ≢ rows
names_apart same = let e : ◌≡◌ {A = ℕ} 98 114 = ap (λ k. head k.name) same in omega (arith, e)
  where
    head : List ℕ → ℕ
    head [] = 0
    head (b ∷ rest) = b

custom_lem_example :
    ((lookup (custom_metrics (set_custom usage rows 5)) rows ≡ some 5)
      × (lookup (custom_metrics (increment_custom usage rows 5)) rows
          ≡ some ((or_zero (lookup (custom_metrics usage) rows) + 5) % 2 ^ 64)))
    × (((lookup (custom_metrics (set_custom usage rows 5)) bytes_of
            ≡ lookup (custom_metrics usage) bytes_of)
          × (lookup (custom_metrics (increment_custom usage rows 5)) bytes_of
              ≡ lookup (custom_metrics usage) bytes_of))
        × ((snapshot (set_custom usage rows 5) 9 ≡ snapshot usage 9)
            × (snapshot (increment_custom usage rows 5) 9 ≡ snapshot usage 9)))
custom_lem_example = custom_lem usage rows bytes_of 5 9 names_apart
