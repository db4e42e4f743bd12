-- ===== src/Budget/Limits.antt =====
-- Limits of the client's budget, as `ClientBudget::check` compares them and in terms of durations.
use foundationdb_rs.Prelude.{
  ℕ, ◌+◌, ◌*◌, ◌^◌, ◌≤◌, ◌<◌, ◌≡◌, ◌↔◌, ◌⊎◌, inl, inr, refl, ap, sym, subst, Option, none, some, ok,
  err, arith, ltb, Bool-cases, ltb→lt, le→ltb, lt→ltb,
}
use foundationdb_rs.Budget.{
  ClientBudget, BudgetKind, BudgetExceeded, AttemptUsage, check, check_limit, map_millis, millis,
  elapsed,
}

-- No limit, or one that the use does not go over.
abbrev pub Within : Option ℕ → ℕ → Type 0
Within limit used = (l : ℕ) → limit ≡ some l → used ≤ l

-- The report that the use goes over the limit.
abbrev pub Over : BudgetKind → Option ℕ → ℕ → BudgetExceeded → Type 0
Over kind limit used e =
    (e.kind ≡ kind) × (e.used ≡ used) × (limit ≡ some e.limit) × (e.limit < used)

-- The whole milliseconds of a duration
abbrev pub IsMillis : ℕ → ℕ → Type 0
IsMillis duration n = (n * 1_000_000 ≤ duration) × (duration < (n + 1) * 1_000_000)

-- A duration whose milliseconds are a `u64`
abbrev pub IsShort : ℕ → Type 0
IsShort duration = duration < 2 ^ 64 * 1_000_000

-- No limit, or one whose millisecond has not passed.
abbrev pub WithinTime : Option ℕ → ℕ → Type 0
WithinTime limit time = (l n : ℕ) → limit ≡ some l → IsMillis l n → time < (n + 1) * 1_000_000

-- The report, in whole milliseconds, that the time goes over the limit.
abbrev pub OverTime : Option ℕ → ℕ → BudgetExceeded → Type 0
OverTime limit time e =
    (e.kind ≡ BudgetKind.time)
    × IsMillis time e.used
    × (e.limit < e.used)
    × ((l : ℕ) × (limit ≡ some l) × IsMillis l e.limit)

millis-IsMillis : (duration n : ℕ) → IsShort duration → IsMillis duration n → millis duration ≡ n
unfolding millis
millis-IsMillis duration n short h = omega arith

IsMillis-millis : (duration : ℕ) → IsShort duration → IsMillis duration (millis duration)
unfolding millis
IsMillis-millis duration short = (omega arith, omega arith)

check_limit_cases :
    (kind : BudgetKind) (limit : Option ℕ) (used : ℕ)
    → (Within limit used × (check_limit kind limit used ≡ ok tt))
      ⊎ ((e : BudgetExceeded) × (Over kind limit used e × (check_limit kind limit used ≡ err e)))
check_limit_cases kind none used = inl ((λ l h. cc), refl)
check_limit_cases kind (some limit) used = elim (Bool-cases (ltb limit used)) [
  | inl h ↦ inr (
    record { kind = kind; used = used; limit = limit },
    ((refl, refl, refl, ltb→lt limit used h), rw h refl),
  )
  | inr h ↦ inl (
    (λ l e.
        let same : limit ≡ l = cc in
        elim (Bool-cases (ltb l used)) [ inl more ↦ cc | inr less ↦ ground arith ]),
    rw h refl,
  )
]

check_limit-Within :
    (kind : BudgetKind) (limit : Option ℕ) (used : ℕ)
    → Within limit used
    → check_limit kind limit used ≡ ok tt
check_limit-Within kind none used h = refl
check_limit-Within kind (some limit) used h =
    let least = h limit refl in rw (le→ltb limit used least) refl

check_limit-Over :
    (kind : BudgetKind) (limit : Option ℕ) (used : ℕ) (e : BudgetExceeded)
    → Over kind limit used e
    → check_limit kind limit used ≡ err e
check_limit-Over kind limit used e (k, u, l, more) =
    rw (sym k, sym u, l, lt→ltb e.limit e.used (rw u more)) refl

module _ (budget : ClientBudget) (usage : AttemptUsage) (instant : ℕ) where
  abbrev RoundedTime : Type 0
  RoundedTime = Within (map_millis budget.time_limit) (millis (elapsed usage instant))

  abbrev pub KeepsRead : Type 0
  KeepsRead = Within budget.max_bytes_read usage.bytes_read

  abbrev pub KeepsWritten : Type 0
  KeepsWritten = Within budget.max_bytes_written usage.bytes_written

  -- The first limit that is gone over, with all before it kept.
  abbrev IsRounded : BudgetExceeded → Type 0
  IsRounded e =
      Over BudgetKind.time (map_millis budget.time_limit) (millis (elapsed usage instant)) e
      ⊎ ((RoundedTime × Over BudgetKind.bytes_read budget.max_bytes_read usage.bytes_read e)
          ⊎ (RoundedTime
              × (KeepsRead
                  × Over BudgetKind.bytes_written budget.max_bytes_written usage.bytes_written e)))

  check_cases :
      ((RoundedTime × (KeepsRead × KeepsWritten)) × (check budget usage instant ≡ ok tt))
      ⊎ ((e : BudgetExceeded) × (IsRounded e × (check budget usage instant ≡ err e)))
  unfolding check
  check_cases =
      elim (check_limit_cases BudgetKind.time (map_millis budget.time_limit)
        (millis (elapsed usage instant))) [
          | inr (e, (over, out)) ↦ inr (e, (inl over, rw out refl))
          | inl (time, out) ↦
              elim (check_limit_cases BudgetKind.bytes_read budget.max_bytes_read
                usage.bytes_read) [
                  | inr (e, (over, out1)) ↦ inr (e, (inr (inl (time, over)), rw (out, out1) refl))
                  | inl (reads, out1) ↦
                      elim (check_limit_cases BudgetKind.bytes_written budget.max_bytes_written
                        usage.bytes_written) [
                          | inr (e, (over, out2)) ↦
                              inr (e, (inr (inr (time, (reads, over))), rw (out, out1, out2) refl))
                          | inl (writes, out2) ↦
                              inl ((time, (reads, writes)), rw (out, out1, out2) refl)
                        ]
                ]
        ]

  within : RoundedTime × (KeepsRead × KeepsWritten) → check budget usage instant ≡ ok tt
  unfolding check
  within (time, (reads, writes)) =
      rw (check_limit-Within _ _ _ time, check_limit-Within _ _ _ reads)
        (check_limit-Within _ _ _ writes)

  first : (e : BudgetExceeded) → IsRounded e → check budget usage instant ≡ err e
  unfolding check
  first e (inl over) = rw (check_limit-Over _ _ _ _ over) refl
  first e (inr (inl (time, over))) =
      rw (check_limit-Within _ _ _ time, check_limit-Over _ _ _ _ over) refl
  first e (inr (inr (time, (reads, over)))) =
      rw (check_limit-Within _ _ _ time, check_limit-Within _ _ _ reads)
        (check_limit-Over _ _ _ _ over)

  pub check-IsRounded :
      ((check budget usage instant ≡ ok tt) ↔ (RoundedTime × (KeepsRead × KeepsWritten)))
      × ((e : BudgetExceeded) → (check budget usage instant ≡ err e) ↔ IsRounded e)
  check-IsRounded = ((passes, within), (λ e. (λ h. reported e h, λ h. first e h)))
    where
      passes : check budget usage instant ≡ ok tt → RoundedTime × (KeepsRead × KeepsWritten)
      passes h = elim check_cases [ inl (keeps, out) ↦ keeps | inr (e, (firsts, out)) ↦ cc ]

      reported : (e : BudgetExceeded) → check budget usage instant ≡ err e → IsRounded e
      reported e h = elim check_cases [
        | inl (keeps, out) ↦ cc
        | inr (e', (firsts, out)) ↦ let same : e' ≡ e = cc in subst IsRounded same firsts
      ]

module _ (limit : Option ℕ) (time : ℕ) (short_limit : (l : ℕ) → limit ≡ some l → IsShort l)
    (short : IsShort time) where
  pub Within-WithinTime : Within (map_millis limit) (millis time) ↔ WithinTime limit time
  Within-WithinTime = (go limit short_limit, back limit short_limit)
    where
      go :
          (o : Option ℕ)
          → ((l : ℕ) → o ≡ some l → IsShort l)
          → Within (map_millis o) (millis time)
          → WithinTime o time
      go none small h l n e is_n = cc
      go (some k) small h l n e is_n =
          let same : k ≡ l = cc in
          let least = h (millis k) refl in
          let k_n : millis k ≡ n = millis-IsMillis k n (small k refl) (rw same is_n) in
          let whole = IsMillis-millis time short in omega arith

      back :
          (o : Option ℕ)
          → ((l : ℕ) → o ≡ some l → IsShort l)
          → WithinTime o time
          → Within (map_millis o) (millis time)
      back none small h l e = cc
      back (some k) small h l e =
          let same : millis k ≡ l = cc in
          let less = h k (millis k) refl (IsMillis-millis k (small k refl)) in
          let whole = IsMillis-millis time short in omega arith

  pub Over-OverTime :
      (e : BudgetExceeded)
      → Over BudgetKind.time (map_millis limit) (millis time) e ↔ OverTime limit time e
  Over-OverTime e = (go limit short_limit, back limit short_limit)
    where
      go :
          (o : Option ℕ)
          → ((l : ℕ) → o ≡ some l → IsShort l)
          → Over BudgetKind.time (map_millis o) (millis time) e
          → OverTime o time e
      go none small (kind, used, is_limit, more) = cc
      go (some k) small (kind, used, is_limit, more) =
          let same : millis k ≡ e.limit = cc in
          (
            kind,
            rw used (IsMillis-millis time short),
            rw used more,
            (k, refl, rw (← same) (IsMillis-millis k (small k refl))),
          )

      back :
          (o : Option ℕ)
          → ((l : ℕ) → o ≡ some l → IsShort l)
          → OverTime o time e
          → Over BudgetKind.time (map_millis o) (millis time) e
      back none small (kind, used, more, (l, is_l, whole)) = cc
      back (some k) small (kind, used, more, (l, is_l, whole)) =
          let same : k ≡ l = cc in
          let time_used : millis time ≡ e.used = millis-IsMillis time e.used short used in
          let k_limit : millis k ≡ e.limit =
            millis-IsMillis k e.limit (small k refl) (rw same whole) in
          (kind, sym time_used, ap some k_limit, rw time_used more)
