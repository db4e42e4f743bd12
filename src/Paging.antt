-- ===== src/Paging.antt =====
-- foundationdb/src/keyselector.rs, and the paging of range reads in foundationdb/src/transaction.rs.
-- One batch, `get_range`, is a call of the FoundationDB client library and a parameter. The stream of
-- `get_ranges` takes fuel, and `none` means that it ran out.
pub mod Selected
pub mod Batches
pub mod Ranges
mod Tests
use foundationdb_rs.Prelude.{
  ℕ, zero, suc, ◌+◌, ◌-◌, Bool, true, false, not, Option, none, some, List, [], ◌∷◌, ◌++◌, length,
  ◌==◌, if◌then◌else◌, Result, ok, err, ℤ, pos,
}

pub record KeySelector : Type 0 where
  pub key : List ℕ
  pub or_equal : Bool
  pub offset : ℤ

-- `KeySelector::last_less_than`
abbrev pub last_less_than : List ℕ → KeySelector
last_less_than key = record { key = key; or_equal = false; offset = pos 0 }

-- `KeySelector::last_less_or_equal`
abbrev pub last_less_or_equal : List ℕ → KeySelector
last_less_or_equal key = record { key = key; or_equal = true; offset = pos 0 }

-- `KeySelector::first_greater_than`
abbrev pub first_greater_than : List ℕ → KeySelector
first_greater_than key = record { key = key; or_equal = true; offset = pos 1 }

-- `KeySelector::first_greater_or_equal`
abbrev pub first_greater_or_equal : List ℕ → KeySelector
first_greater_or_equal key = record { key = key; or_equal = false; offset = pos 1 }

-- `KeySelector::make_first_greater_or_equal`
abbrev pub make_first_greater_or_equal : KeySelector → List ℕ → KeySelector
make_first_greater_or_equal selector key = record selector {
  key = key;
  or_equal = false;
  offset = pos 1;
}

-- `KeySelector::make_first_greater_than`
abbrev pub make_first_greater_than : KeySelector → List ℕ → KeySelector
make_first_greater_than selector key = record selector {
  key = key;
  or_equal = true;
  offset = pos 1;
}

pub record RangeOption : Type 0 where
  pub begin : KeySelector
  pub end : KeySelector
  pub limit : Option ℕ
  pub target_bytes : ℕ
  pub mode : ℤ
  pub reverse : Bool

-- `RangeOption::rev`
abbrev pub rev : RangeOption → RangeOption
rev opt = record opt { reverse = not opt.reverse }

abbrev pub Row : Type 0
Row = List ℕ × List ℕ

-- `FdbValues`, by its rows and `more`
pub record Values : Type 0 where
  pub rows : List Row
  pub more : Bool

-- `last`
abbrev pub last_of : List Row → Option Row
last_of [] = none
last_of (row ∷ []) = some row
last_of (row ∷ next ∷ rows) = last_of (next ∷ rows)

-- The limit that is left, in `RangeOption::next_range`: `none` where it is used up
abbrev pub limit_left : Option ℕ → ℕ → Option (Option ℕ)
limit_left none n = some none
limit_left (some limit) n =
    if limit == 0
    then some (some limit)
    else if limit - n == 0
    then none
    else some (some (limit - n))

-- The part of the range behind a key
abbrev pub range_behind : RangeOption → List ℕ → RangeOption
range_behind opt key =
    if opt.reverse
    then record opt { end = make_first_greater_or_equal opt.end key }
    else record opt { begin = make_first_greater_than opt.begin key }

-- `RangeOption::next_range`
unfoldable pub next_range : RangeOption → Values → Option RangeOption
next_range opt values =
    let rest : Option RangeOption = elim (last_of values.rows) [
      | none ↦ none
      | some last ↦ elim (limit_left opt.limit (length values.rows)) [
        | none ↦ none
        | some limit ↦ some (range_behind (record opt { limit = limit }) last.0)
      ]
    ] in
    if not values.more then none else rest

module _ {E : Type 0} where
  -- `Transaction::get_ranges_keyvalues`: the rows of its stream, and the error where there is one
  unfoldable pub flattened : List (Result E Values) → List Row × Option E
  flattened [] = ([], none)
  flattened (ok values ∷ items) = let rest = flattened items in (values.rows ++ rest.0, rest.1)
  flattened (err e ∷ items) = ([], some e)

module _ {E : Type 0} (get_range : RangeOption → ℕ → Result E Values) where
  -- What `get_ranges` goes on with after a batch
  abbrev pub next_of : RangeOption → Result E Values → Option RangeOption
  next_of opt (ok values) = next_range opt values
  next_of opt (err e) = none

  -- `Transaction::get_ranges`: the items of its stream, from an iteration on
  unfoldable pub get_ranges : ℕ → Option RangeOption → ℕ → Option (List (Result E Values))
  get_ranges iteration none fuel = some []
  get_ranges iteration (some opt) zero = none
  get_ranges iteration (some opt) (suc fuel) =
      let values = get_range opt iteration in
      elim (get_ranges (iteration + 1) (next_of opt values) fuel) [
        | none ↦ none
        | some items ↦ some (values ∷ items)
      ]
