-- ===== src/Paging/Tests.antt =====
-- The paging of ranges at concrete inputs, with a client that gives one row in each batch.
use foundationdb_rs.Prelude.{
  ℕ, ◌≡◌, refl, subst, arith, true, false, some, List, [], ◌∷◌, Result, ok, pos,
}
use foundationdb_rs.Paging.{
  RangeOption, Row, Values, first_greater_or_equal, get_ranges, next_range,
}
use foundationdb_rs.Paging.Selected.{selected}
use foundationdb_rs.Paging.Ranges.{IsBatch, IsClient, Gives, get_ranges-Gives}

abbrev batch : List Row → Values
batch [] = record { rows = []; more = false }
batch (row ∷ []) = record { rows = row ∷ []; more = false }
batch (row ∷ next ∷ rows) = record { rows = row ∷ []; more = true }

batch-IsBatch :
    (rows : List Row) (opt : RangeOption) (found : List Row)
    → selected opt rows ≡ found
    → IsBatch rows opt (batch found)
batch-IsBatch rows opt [] e = record { rest = []; first = e; all = λ h. refl; some_row = λ h. cc }
batch-IsBatch rows opt (row ∷ []) e = record {
  rest = [];
  first = e;
  all = λ h. refl;
  some_row = λ h k. cc;
}
batch-IsBatch rows opt (row ∷ next ∷ found) e = record {
  rest = next ∷ found;
  first = e;
  all = λ h. cc;
  some_row = λ h k. cc;
}

abbrev single_rows : List Row → RangeOption → ℕ → Result ℕ Values
single_rows rows opt iteration = ok (batch (selected opt rows))

single_rows-IsClient : (rows : List Row) → IsClient rows (single_rows rows)
single_rows-IsClient rows = record {
  gives = λ opt iteration values e.
      let same : batch (selected opt rows) ≡ values = cc in
      subst (IsBatch rows opt) same (batch-IsBatch rows opt (selected opt rows) refl);
}

abbrev some_rows : List Row
some_rows = (1 ∷ [], 7 ∷ []) ∷ (2 ∷ [], 8 ∷ []) ∷ (3 ∷ [], []) ∷ (5 ∷ [], []) ∷ []

abbrev some_range : RangeOption
some_range = record {
  begin = first_greater_or_equal (1 ∷ []);
  end = first_greater_or_equal (5 ∷ []);
  limit = some 2;
  target_bytes = 0;
  mode = pos 0;
  reverse = true;
}

-- The last two rows before the end, in reverse
abbrev reverse_items : List (Result ℕ Values)
reverse_items =
    ok (record { rows = (3 ∷ [], []) ∷ []; more = true })
    ∷ ok (record { rows = (2 ∷ [], 8 ∷ []) ∷ []; more = false })
    ∷ []

some_items : get_ranges (single_rows some_rows) 1 (some some_range) 3 ≡ some reverse_items
unfolding get_ranges next_range
some_items = refl

get_ranges-Gives_example :
    (items : List (Result ℕ Values)) × (get_ranges (single_rows some_rows) 1 (some some_range) 3
      ≡ some items)
    × Gives (selected some_range some_rows) items
get_ranges-Gives_example =
    get_ranges-Gives (single_rows some_rows) some_rows 3 1 some_range
      (single_rows-IsClient some_rows)
      ((refl, (refl, (refl, tt))), ((refl, (refl, tt)), ((refl, tt), (tt, tt)))) (omega arith)
