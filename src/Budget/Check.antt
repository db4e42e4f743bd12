-- ===== src/Budget/Check.antt =====
-- The check of the client's budget against its limits.
use foundationdb_rs.Prelude.{ℕ, ◌-◌, ◌≡◌, ◌↔◌, ◌⊎◌, inl, inr, some, ok, err}
use foundationdb_rs.Budget.{ClientBudget, BudgetKind, BudgetExceeded, AttemptUsage, check, elapsed}
use foundationdb_rs.Budget.Limits.{
  IsShort, WithinTime, OverTime, Over, KeepsRead, KeepsWritten, check-IsRounded, Within-WithinTime,
  Over-OverTime,
}

-- What was spent since the start of an attempt, by its clock, which may go back
abbrev pub spent : AttemptUsage → ℕ → ℕ
spent usage instant = usage.clock instant - usage.started_at

module _ (budget : ClientBudget) (usage : AttemptUsage) (instant : ℕ) where
  abbrev pub KeepsTime : Type 0
  KeepsTime = WithinTime budget.time_limit (spent usage instant)

  -- The first limit that is gone over, with all before it kept.
  abbrev pub IsFirst : BudgetExceeded → Type 0
  IsFirst e =
      OverTime budget.time_limit (spent usage instant) e
      ⊎ ((KeepsTime × Over BudgetKind.bytes_read budget.max_bytes_read usage.bytes_read e)
          ⊎ (KeepsTime
              × (KeepsRead budget usage instant
                  × Over BudgetKind.bytes_written budget.max_bytes_written usage.bytes_written e)))

  -- Where the time since the start of the attempt, by its clock, and the limit of it have fewer than
  -- 2^64 milliseconds: the check of a budget passes exactly where the time is below the next whole
  -- millisecond behind its limit, and the bytes read and the bytes written are not over theirs, each
  -- where it has a limit. It fails with a report exactly where that is of the first limit in this order
  -- that is gone over, with the time and its limit rounded down to whole milliseconds.
  pub check_iff :
      ((l : ℕ) → budget.time_limit ≡ some l → IsShort l)
      → IsShort (spent usage instant)
      → ((check budget usage instant ≡ ok tt)
          ↔ (KeepsTime × (KeepsRead budget usage instant × KeepsWritten budget usage instant)))
        × ((e : BudgetExceeded) → (check budget usage instant ≡ err e) ↔ IsFirst e)
  unfolding elapsed
  check_iff small short =
      let (passed, failed) = check-IsRounded budget usage instant in
      let time = Within-WithinTime budget.time_limit (spent usage instant) small short in
      let over = Over-OverTime budget.time_limit (spent usage instant) small short in
      (
        (
          (λ h. let (t, others) = passed.0 h in (time.0 t, others)),
          (λ (t, others). passed.1 (time.1 t, others)),
        ),
        (λ e. (
          (λ h. elim ((failed e).0 h) [
            | inl out ↦ inl ((over e).0 out)
            | inr (inl (t, out)) ↦ inr (inl (time.0 t, out))
            | inr (inr (t, out)) ↦ inr (inr (time.0 t, out))
          ]),
          (λ h. (failed e).1 (elim h [
            | inl out ↦ inl ((over e).1 out)
            | inr (inl (t, out)) ↦ inr (inl (time.1 t, out))
            | inr (inr (t, out)) ↦ inr (inr (time.1 t, out))
          ])),
        )),
      )
