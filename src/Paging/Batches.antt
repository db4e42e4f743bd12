-- ===== src/Paging/Batches.antt =====
-- Behind a batch of a range, `next_range` selects the rest of it.
use foundationdb_rs.Prelude.{
  ℕ, ◌+◌, ◌-◌, ◌≡◌, sym, ap, ◌∙◌, arith, true, false, List, [], ◌∷◌, ◌++◌, append_assoc, length,
  length-append, take, drop, drop-drop, drop-append_eq, take-append_eq, inl, inr, Bool-cases,
}
use mathlib.Core.List.{reverse, reverse-append, reverse-reverse, reverse-cons}
use foundationdb_rs.Paging.{RangeOption, Row, range_behind}
use foundationdb_rs.Paging.Selected.{
  IsSorted, place, in_range, count_below, split_at_row, count_below-in_range,
}

-- Behind a row of the range is the rest of it.
forward-behind :
    (i j : ℕ) (rows front : List Row) (row : Row) (back : List Row)
    → IsSorted rows
    → drop i (take j rows) ≡ front ++ row ∷ back
    → drop (count_below row.0 true rows + 1 - 1) (take j rows) ≡ back
forward-behind i j rows front row back sorted e =
    let at = count_below-in_range i j rows front row back sorted e true in
    let n : count_below row.0 true rows + 1 - 1 ≡ i + (length front + 1) = omega arith in
    ap (λ k. drop k (take j rows)) n
    ∙ drop-drop i (length front + 1) (take j rows)
    ∙ ap (drop (length front + 1)) (e ∙ sym (append_assoc front (row ∷ []) back))
    ∙ drop-append_eq (length front + 1) (front ++ row ∷ []) back
        (sym (length-append front (row ∷ [])))

backward-behind :
    (i j : ℕ) (rows front : List Row) (row : Row) (back : List Row)
    → IsSorted rows
    → reverse (drop i (take j rows)) ≡ front ++ row ∷ back
    → reverse (drop i (take (count_below row.0 false rows + 1 - 1) rows)) ≡ back
backward-behind i j rows front row back sorted e =
    let found : drop i (take j rows) ≡ reverse back ++ row ∷ reverse front =
      sym (reverse-reverse (drop i (take j rows)))
      ∙ ap reverse e
      ∙ reverse-append front (row ∷ back)
      ∙ ap (λ t. t ++ reverse front) (reverse-cons row back)
      ∙ append_assoc (reverse back) (row ∷ []) (reverse front) in
    let (lead, tail, at, whole) = split_at_row i j rows (reverse back) row (reverse front) found in
    let counted =
      count_below-in_range i j rows (reverse back) row (reverse front) sorted found false in
    let size = length-append lead (reverse back) in
    let n : count_below row.0 false rows + 1 - 1 ≡ length (lead ++ reverse back) = omega arith in
    let taken : take (count_below row.0 false rows + 1 - 1) rows ≡ lead ++ reverse back =
      ap (take (count_below row.0 false rows + 1 - 1)) whole
      ∙ take-append_eq (count_below row.0 false rows + 1 - 1) (lead ++ reverse back) (row ∷ tail)
          n in
    ap (λ t. reverse (drop i t)) taken
    ∙ ap reverse (drop-append_eq i lead (reverse back) (sym at))
    ∙ reverse-reverse back

pub in_range-behind :
    (opt : RangeOption) (rows front : List Row) (row : Row) (back : List Row)
    → IsSorted rows
    → in_range opt rows ≡ front ++ row ∷ back
    → in_range (range_behind opt row.0) rows ≡ back
in_range-behind opt rows front row back sorted e = elim (Bool-cases opt.reverse) [
  | inl backward ↦
      (let h = rw backward at e in
        rw backward (
          backward-behind (place opt.begin rows) (place opt.end rows) rows front row back sorted h))
  | inr forward ↦
      (let h = rw forward at e in
        rw forward
          (forward-behind (place opt.begin rows) (place opt.end rows) rows front row back sorted h))
]
