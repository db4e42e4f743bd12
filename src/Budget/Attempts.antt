-- ===== src/Budget/Attempts.antt =====
-- The attempts of a transaction, as `UsageSlot` of foundationdb/src/budget.rs and transaction.rs
-- keep them: an operation holds the attempt that issued it. The attempts that are still held are
-- numbered in the order in which they began.
use foundationdb_rs.Prelude.{
  ℕ, suc, ◌≡◌, inl, inr, refl, ap, ap₂, sym, ok, ==_self, List, [], ◌∷◌, Option, none, ◌==◌,
  if◌then◌else◌, Result, Bool-cases, ==_iff,
}
use foundationdb_rs.Budget.{
  Clock, ClientBudget, BudgetExceeded, AttemptUsage, UsageSnapshot, with_clock, snapshot, check,
}
use foundationdb_rs.Budget.Counters.{Recording, record_one, record_all}

-- The attempt of each number, with the one that the slot holds and the budget.
pub record Transaction : Type 0 where
  pub attempts : ℕ → AttemptUsage
  pub slot : ℕ
  pub budget : ClientBudget

-- `Transaction::usage`, which is `UsageSlot::current`: the attempt to record into
unfoldable pub current : Transaction → ℕ
current txn = txn.slot

abbrev pub put : (ℕ → AttemptUsage) → ℕ → AttemptUsage → ℕ → AttemptUsage
put attempts n usage m = if m == n then usage else attempts m

-- `UsageSlot::begin`: a new attempt, in the slot
unfoldable pub begin : Transaction → Option Clock → ℕ → Transaction
begin txn clock instant = record txn {
  attempts = put txn.attempts (suc txn.slot) (with_clock clock instant);
  slot = suc txn.slot;
}

-- `Transaction::begin_attempt_usage`
unfoldable pub begin_attempt_usage : Transaction → ℕ → Transaction
begin_attempt_usage txn instant = begin txn txn.budget.clock instant

-- `Transaction::set_client_budget`
unfoldable pub set_client_budget : Transaction → ClientBudget → ℕ → Transaction
set_client_budget txn budget instant = begin (record txn { budget = budget }) budget.clock instant

-- `Transaction::clear_client_budget`
unfoldable pub clear_client_budget : Transaction → Transaction
clear_client_budget txn = record txn {
  budget = record {
    time_limit = none;
    max_bytes_read = none;
    max_bytes_written = none;
    clock = none;
  };
}

-- `Transaction::attempt_usage`
unfoldable pub attempt_usage : Transaction → ℕ → UsageSnapshot
attempt_usage txn instant = snapshot (txn.attempts (current txn)) instant

-- `Transaction::check_client_budget`
unfoldable pub check_client_budget : Transaction → ℕ → Result BudgetExceeded (Unit {0})
check_client_budget txn instant = check txn.budget (txn.attempts (current txn)) instant

-- An operation completes and records into the attempt that it holds.
unfoldable pub finish : Transaction → ℕ → Recording → Transaction
finish txn n r = record txn { attempts = put txn.attempts n (record_one (txn.attempts n) r) }

unfoldable pub finish_all : Transaction → List (ℕ × Recording) → Transaction
finish_all txn [] = txn
finish_all txn ((n, r) ∷ events) = finish_all (finish txn n r) events

-- The recordings into one attempt
abbrev pub of_attempt : ℕ → List (ℕ × Recording) → List Recording
of_attempt m [] = []
of_attempt m ((n, r) ∷ events) = let rest = of_attempt m events in if m == n then r ∷ rest else rest

finish_all_lem :
    (events : List (ℕ × Recording)) (txn : Transaction) (m : ℕ)
    → ((finish_all txn events).attempts m ≡ record_all (txn.attempts m) (of_attempt m events))
      × (((finish_all txn events).slot ≡ txn.slot) × ((finish_all txn events).budget ≡ txn.budget))
unfolding finish_all finish record_all
finish_all_lem [] txn m = (refl, (refl, refl))
finish_all_lem ((n, r) ∷ events) txn m =
    let (attempts, kept) = finish_all_lem events (finish txn n r) m in
    elim (Bool-cases (m == n)) [
      | inl same ↦
          let it : m ≡ n = (==_iff m n).0 same in
          (
            rw (attempts, same)
                (ap (λ k. record_all (record_one (txn.attempts k) r) (of_attempt m events))
                  (sym it)),
            kept,
          )
      | inr other ↦ (rw (other, attempts, other) refl, kept)
    ]

begin_lem :
    (txn : Transaction) (clock : Option Clock) (instant : ℕ) (events : List (ℕ × Recording))
    → let after = finish_all (begin txn clock instant) events in
      (after.attempts after.slot
        ≡ record_all (with_clock clock instant) (of_attempt (suc txn.slot) events))
      × (after.budget ≡ txn.budget)
unfolding begin
begin_lem txn clock instant events =
    let (attempts, (slots, budgets)) =
      finish_all_lem events (begin txn clock instant) (suc txn.slot) in
    (rw (slots, attempts, ==_self (suc txn.slot)) refl, budgets)

module _ (txn : Transaction) (instant later : ℕ) (events : List (ℕ × Recording)) where
  -- The recordings of the events into the attempt that begins next.
  abbrev pub own : List Recording
  own = of_attempt (suc (current txn)) events

  -- After a transaction begins an attempt, and operations complete in any order, which hold the new
  -- attempt or an old one: its usage is that of a fresh attempt of the budget's clock after the
  -- operations that hold the new attempt, whatever was recorded into the others; its check is that of
  -- the same budget against this usage. A budget that is set begins an attempt in the same way with
  -- its own clock and limits, and a budget that is cleared passes the check.
  pub attempts_lem :
      (budget : ClientBudget)
      → ((attempt_usage (finish_all (begin_attempt_usage txn instant) events) later
            ≡ snapshot (record_all (with_clock txn.budget.clock instant) own) later)
          × (check_client_budget (finish_all (begin_attempt_usage txn instant) events) later
              ≡ check txn.budget (record_all (with_clock txn.budget.clock instant) own) later))
        × ((check_client_budget (finish_all (set_client_budget txn budget instant) events) later
              ≡ check budget (record_all (with_clock budget.clock instant) own) later)
            × (check_client_budget (clear_client_budget txn) later ≡ ok tt))
  unfolding attempt_usage check_client_budget begin_attempt_usage set_client_budget
      clear_client_budget current check
  attempts_lem budget =
      let (usage, budgets) = begin_lem txn txn.budget.clock instant events in
      let (usage', budgets') =
        begin_lem (record txn { budget = budget }) budget.clock instant events in
      (
        (ap (λ u. snapshot u later) usage, ap₂ (λ b u. check b u later) budgets usage),
        (ap₂ (λ b u. check b u later) budgets' usage', refl),
      )
