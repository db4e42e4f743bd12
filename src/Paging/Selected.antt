-- ===== src/Paging/Selected.antt =====
-- Which rows a range selects in the snapshot that a transaction reads.
use foundationdb_rs.Prelude.{
  ℕ, ◌+◌, ◌-◌, ◌<◌, ◌≡◌, refl, sym, ap, ◌∙◌, subst, arith, Bool, true, false, not, if◌then◌else◌,
  ◌==◌, Option, none, some, List, [], ◌∷◌, ◌++◌, append_assoc, length, length-append, length-drop,
  take, drop, take-drop, All, pos, negsuc,
}
use mathlib.Core.List.{reverse}
use foundationdb_rs.Tuple.Compare.Total.{before, before_irrefl, before_asym}
use foundationdb_rs.Paging.{KeySelector, RangeOption, Row}

-- The rows in the order of their keys
abbrev pub IsSorted : List Row → Type 0
IsSorted [] = Unit
IsSorted (row ∷ rows) = All (λ (r : Row). before row.0 r.0 ≡ true) rows × IsSorted rows

-- The rows whose keys are before a key, or at it too
abbrev is_below : List ℕ → Bool → Row → Bool
is_below key or_equal row = if or_equal then not (before key row.0) else before row.0 key

abbrev pub count_below : List ℕ → Bool → List Row → ℕ
count_below key or_equal [] = 0
count_below key or_equal (row ∷ rows) =
    (if is_below key or_equal row then 1 else 0) + count_below key or_equal rows

-- The place of the key that a selector selects: the first one behind all that are below the selector's
-- key, moved by the offset less one.
abbrev pub place : KeySelector → List Row → ℕ
place selector rows = elim selector.offset [
  | pos n ↦ count_below selector.key selector.or_equal rows + n - 1
  | negsuc n ↦ count_below selector.key selector.or_equal rows - (n + 2)
]

-- The rows of a range, in the order of the read
abbrev pub in_range : RangeOption → List Row → List Row
in_range opt rows =
    let found = drop (place opt.begin rows) (take (place opt.end rows) rows) in
    if opt.reverse then reverse found else found

-- `none` and zero mean no limit.
abbrev pub limited : Option ℕ → List Row → List Row
limited none rows = rows
limited (some limit) rows = if limit == 0 then rows else take limit rows

abbrev pub selected : RangeOption → List Row → List Row
selected opt rows = limited opt.limit (in_range opt rows)

count_below-none :
    (key : List ℕ) (or_equal : Bool) (rows : List Row)
    → All (λ (r : Row). before key r.0 ≡ true) rows
    → count_below key or_equal rows ≡ 0
count_below-none key or_equal [] h = refl
count_below-none key true (row ∷ rows) h =
    rw h.0 (omega (arith, count_below-none key true rows h.1))
count_below-none key false (row ∷ rows) h =
    rw (before_asym key row.0 h.0) (omega (arith, count_below-none key false rows h.1))

All-at :
    (P : Row → Type 0) (front : List Row) (row : Row) (back : List Row)
    → All P (front ++ row ∷ back)
    → P row
All-at P [] row back h = h.0
All-at P (r ∷ front) row back h = All-at P front row back h.1

-- Below the key of a row are the rows in front of it, and the row itself where it counts.
pub count_below-at :
    (or_equal : Bool) (front : List Row) (row : Row) (back : List Row)
    → IsSorted (front ++ row ∷ back)
    → count_below row.0 or_equal (front ++ row ∷ back) ≡ length front + (if or_equal then 1 else 0)
count_below-at true [] row back h =
    rw (before_irrefl row.0) (omega (arith, count_below-none row.0 true back h.0))
count_below-at false [] row back h =
    rw (before_irrefl row.0) (omega (arith, count_below-none row.0 false back h.0))
count_below-at true (r ∷ front) row back h =
    let less : before r.0 row.0 ≡ true =
      All-at (λ (x : Row). before r.0 x.0 ≡ true) front row back h.0 in
    let rest = count_below-at true front row back h.1 in
    rw (before_asym r.0 row.0 less) (omega (arith, rest))
count_below-at false (r ∷ front) row back h =
    let less : before r.0 row.0 ≡ true =
      All-at (λ (x : Row). before r.0 x.0 ≡ true) front row back h.0 in
    let rest = count_below-at false front row back h.1 in rw less (omega (arith, rest))

-- Where a part of a list lies from one place to another, what is in front of it has the first as its length.
pub take-place :
    (i : ℕ) (xs part : List Row) → drop i xs ≡ part → 0 < length part → length (take i xs) ≡ i
take-place i xs part e some_rows =
    let whole : length (take i xs) + length (drop i xs) ≡ length xs =
      sym (length-append (take i xs) (drop i xs)) ∙ ap length (take-drop i xs) in
    let left = length-drop i xs in
    let size : length (drop i xs) ≡ length part = ap length e in omega arith

-- A row in a range: the rows in front of it are those in front of the range and those of the range.
pub split_at_row :
    (i j : ℕ) (rows front : List Row) (row : Row) (back : List Row)
    → drop i (take j rows) ≡ front ++ row ∷ back
    → (lead : List Row) × (tail : List Row) × (length lead ≡ i)
      × (rows ≡ (lead ++ front) ++ row ∷ tail)
split_at_row i j rows front row back e =
    let lead = take i (take j rows) in
    let some_rows : 0 < length (front ++ row ∷ back) =
      omega (arith, length-append front (row ∷ back)) in
    let inner : take j rows ≡ lead ++ (front ++ row ∷ back) =
      sym (take-drop i (take j rows)) ∙ ap (λ t. lead ++ t) e in
    (
      lead,
      back ++ drop j rows,
      take-place i (take j rows) (front ++ row ∷ back) e some_rows,
      sym (take-drop j rows)
          ∙ ap (λ t. t ++ drop j rows) inner
          ∙ append_assoc lead (front ++ row ∷ back) (drop j rows)
          ∙ ap (λ t. lead ++ t) (append_assoc front (row ∷ back) (drop j rows))
          ∙ sym (append_assoc lead front (row ∷ (back ++ drop j rows))),
    )

pub count_below-in_range :
    (i j : ℕ) (rows front : List Row) (row : Row) (back : List Row)
    → IsSorted rows
    → drop i (take j rows) ≡ front ++ row ∷ back
    → (or_equal : Bool)
    → count_below row.0 or_equal rows ≡ i + length front + (if or_equal then 1 else 0)
count_below-in_range i j rows front row back sorted e or_equal =
    let (lead, tail, at, whole) = split_at_row i j rows front row back e in
    let placed = count_below-at or_equal (lead ++ front) row tail (subst IsSorted whole sorted) in
    ap (count_below row.0 or_equal) whole
    ∙ placed
    ∙ ap (λ n. n + (if or_equal then 1 else 0))
        (length-append lead front ∙ ap (λ n. n + length front) at)
