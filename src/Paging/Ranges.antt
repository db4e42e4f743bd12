-- ===== src/Paging/Ranges.antt =====
-- The batches of `get_ranges` make up the range.
use foundationdb_rs.Prelude.{
  ℕ, zero, suc, ◌+◌, ◌-◌, ◌<◌, ◌≡◌, ◌≢◌, refl, sym, ap, ◌∙◌, subst, arith, true, false, ◌==◌,
  Option, none, some, List, [], ◌∷◌, ◌++◌, append_assoc, append-nil, length, length-append, take,
  inl, inr, Bool-cases, Option-cases, Result, ok, err, Result-cases,
}
use foundationdb_rs.Paging.{
  RangeOption, Row, Values, range_behind, limit_left, next_range, last_of, next_of, get_ranges,
  flattened,
}
use foundationdb_rs.Paging.Selected.{IsSorted, in_range, limited, selected}
use foundationdb_rs.Paging.Batches.{in_range-behind}

-- What the client library gives for a batch of a snapshot's rows: the first of the selected rows, which
-- are all of them where there are no more, and at least one where there may be more.
pub record IsBatch (rows : List Row) (opt : RangeOption) (values : Values) : Type 0 where
  pub rest : List Row
  pub first : selected opt rows ≡ values.rows ++ rest
  pub all : values.more ≡ false → rest ≡ []
  pub some_row : values.more ≡ true → values.rows ≢ []

pub record IsClient {E : Type 0} (rows : List Row) (get_range : RangeOption → ℕ → Result E Values)
    : Type 0 where
  pub gives :
      (opt : RangeOption) (iteration : ℕ) (values : Values)
      → get_range opt iteration ≡ ok values
      → IsBatch rows opt values

last_of-split :
    (rows : List Row) (row : Row)
    → last_of rows ≡ some row
    → (front : List Row) × (rows ≡ front ++ row ∷ [])
last_of-split [] row e = cc
last_of-split (r ∷ []) row e = (let same : r ≡ row = cc in ([], ap (λ x. x ∷ []) same))
last_of-split (r ∷ next ∷ rows) row e =
    let (front, split) = last_of-split (next ∷ rows) row e in (r ∷ front, ap (λ t. r ∷ t) split)

last_of-none : (rows : List Row) → last_of rows ≡ none → rows ≡ []
last_of-none [] e = refl
last_of-none (r ∷ []) e = cc
last_of-none (r ∷ next ∷ rows) e = (let no = last_of-none (next ∷ rows) e in cc)

take-split :
    (l : ℕ) (xs ks rest : List Row)
    → take l xs ≡ ks ++ rest
    → (ys : List Row) × (xs ≡ ks ++ ys) × (take (l - length ks) ys ≡ rest)
take-split l xs [] rest e = (xs, refl, ap (λ n. take n xs) {x = l - 0} {y = l} (omega arith) ∙ e)
take-split zero xs (k ∷ ks) rest e = cc
take-split (suc l) [] (k ∷ ks) rest e = cc
take-split (suc l) (x ∷ xs) (k ∷ ks) rest e =
    let here : x ≡ k = cc in
    let behind : take l xs ≡ ks ++ rest = cc in
    let (ys, whole, left) = take-split l xs ks rest behind in
    (
      ys,
      rw (here, whole) refl,
      ap (λ n. take n ys) {x = suc l - suc (length ks)} {y = l - length ks} (omega arith) ∙ left,
    )

-- The limit that is left selects the rest behind a batch.
limited-behind :
    (limit left : Option ℕ) (xs ks rest : List Row)
    → limited limit xs ≡ ks ++ rest
    → limit_left limit (length ks) ≡ some left
    → (ys : List Row) × (xs ≡ ks ++ ys) × (limited left ys ≡ rest)
limited-behind none left xs ks rest e h = let same : none ≡ left = cc in (rest, e, rw (← same) refl)
limited-behind (some l) left xs ks rest e h = elim (Bool-cases (l == 0)) [
  | inl unlimited ↦
      let h' = rw unlimited at h in
      let e' = rw unlimited at e in
      let same : some l ≡ left = cc in (rest, e', rw (← same, unlimited) refl)
  | inr capped ↦
      let h' = rw capped at h in
      let e' = rw capped at e in
      let (ys, whole, behind) = take-split l xs ks rest e' in
      elim (Bool-cases (l - length ks == 0)) [
        | inl used ↦ (let no = rw used at h' in cc)
        | inr more ↦
            let h'' = rw more at h' in
            let same : some (l - length ks) ≡ left = cc in (ys, whole, rw (← same, more) behind)
      ]
]

limited-used :
    (limit : Option ℕ) (xs ks rest : List Row)
    → limited limit xs ≡ ks ++ rest
    → limit_left limit (length ks) ≡ none
    → rest ≡ []
limited-used none xs ks rest e h = cc
limited-used (some l) xs ks rest e h = elim (Bool-cases (l == 0)) [
  | inl unlimited ↦ (let no = rw unlimited at h in cc)
  | inr capped ↦
      let h' = rw capped at h in
      let e' = rw capped at e in
      let (ys, whole, behind) = take-split l xs ks rest e' in
      elim (Bool-cases (l - length ks == 0)) [
        | inl used ↦
            let nothing : l - length ks ≡ 0 = grind arith in
            sym behind ∙ ap (λ n. take n ys) nothing
        | inr more ↦ (let no = rw more at h' in cc)
      ]
]

-- What is read after a batch
record Continues (rows : List Row) (opt : RangeOption) (values : Values) (rest : List Row)
    (next : Option RangeOption) : Type 0 where
  stops : next ≡ none → rest ≡ []
  goes :
      (opt' : RangeOption)
      → next ≡ some opt'
      → (selected opt' rows ≡ rest) × (0 < length values.rows)

next_range-Continues :
    (rows : List Row) (opt : RangeOption) (values : Values) (b : IsBatch rows opt values)
    → IsSorted rows
    → Continues rows opt values b.rest (next_range opt values)
unfolding next_range
next_range-Continues rows opt values b sorted = elim (Bool-cases values.more) [
  | inr ended ↦ rw ended (record { stops = λ e. b.all ended; goes = λ opt' e. cc })
  | inl more ↦ elim (Option-cases (last_of values.rows)) [
    | inl absent ↦ elim (b.some_row more (last_of-none values.rows absent)) [ ]
    | inr (last, there) ↦ elim (Option-cases (limit_left opt.limit (length values.rows))) [
      | inl used ↦
          rw (more, there, used)
            (record {
              stops =
                  λ e. limited-used opt.limit (in_range opt rows) values.rows b.rest b.first used;
              goes = λ opt' e. cc;
            })
      | inr (limit, left) ↦
          let (ys, whole, behind) =
            limited-behind opt.limit limit (in_range opt rows) values.rows b.rest b.first left in
          let (front, split) = last_of-split values.rows last there in
          let found : in_range opt rows ≡ front ++ last ∷ ys =
            whole ∙ ap (λ t. t ++ ys) split ∙ append_assoc front (last ∷ []) ys in
          let opt1 = record opt { limit = limit } in
          let onward : in_range (range_behind opt1 last.0) rows ≡ ys =
            in_range-behind opt1 rows front last ys sorted found in
          let size : 0 < length values.rows =
            rw split (omega (arith, length-append front (last ∷ []))) in
          let kept : (range_behind opt1 last.0).limit ≡ limit = elim (Bool-cases opt.reverse) [
            | inl backward ↦ rw backward refl
            | inr forward ↦ rw forward refl
          ] in
          rw (more, there, left)
            (record {
              stops = λ e. cc;
              goes = λ opt' e.
                  let same : range_behind opt1 last.0 ≡ opt' = cc in
                  let here : selected (range_behind opt1 last.0) rows ≡ b.rest =
                    ap (λ l. limited l (in_range (range_behind opt1 last.0) rows)) kept
                    ∙ ap (limited limit) onward
                    ∙ behind in
                  (subst (λ o. selected o rows ≡ b.rest) same here, size);
            })
    ]
  ]
]

-- What the items of a stream give of some rows: all of them, or the first ones where an error ends it.
abbrev pub Gives : {E : Type 0} → List Row → List (Result E Values) → Type 0
Gives rows items =
    (rest : List Row) × (rows ≡ (flattened items).0 ++ rest)
    × ((flattened items).1 ≡ none → rest ≡ [])

module _ {E : Type 0} (get_range : RangeOption → ℕ → Result E Values) where
  get_ranges-none : (iteration fuel : ℕ) → get_ranges get_range iteration none fuel ≡ some []
  unfolding get_ranges
  get_ranges-none iteration zero = refl
  get_ranges-none iteration (suc fuel) = refl

  get_ranges-step :
      (iteration fuel : ℕ) (opt : RangeOption) (values : Result E Values)
      (items : List (Result E Values))
      → get_range opt iteration ≡ values
      → get_ranges get_range (iteration + 1) (next_of get_range opt values) fuel ≡ some items
      → get_ranges get_range iteration (some opt) (suc fuel) ≡ some (values ∷ items)
  unfolding get_ranges
  get_ranges-step iteration fuel opt values items e done =
      rw (get_ranges, e, done) (ap (λ v. some (v ∷ items)) e)

  -- In a snapshot whose rows are in order, and with a client that gives, for each batch, the first of
  -- the rows that the range selects, all of them or one at least: the stream of a range comes to an
  -- end within one more step than it has rows, and its batches, joined, are the rows of the range up
  -- to its limit, in its direction and each once, or the first of them where an error ends the stream.
  pub get_ranges-Gives :
      (rows : List Row) (fuel iteration : ℕ) (opt : RangeOption)
      → IsClient rows get_range
      → IsSorted rows
      → length (selected opt rows) < fuel
      → (items : List (Result E Values)) × (get_ranges get_range iteration (some opt) fuel
          ≡ some items)
        × Gives (selected opt rows) items
  unfolding flattened
  get_ranges-Gives rows zero iteration opt client sorted enough = absurd (omega arith)
  get_ranges-Gives rows (suc fuel) iteration opt client sorted enough =
      elim (Result-cases (get_range opt iteration)) [
        | inr (e, failed) ↦ (
          err e ∷ [],
          get_ranges-step iteration fuel opt (err e) [] failed
              (get_ranges-none (iteration + 1) fuel),
          (selected opt rows, refl, λ none_err. cc),
        )
        | inl (values, read) ↦
            let b = client.gives opt iteration values read in
            let onward = next_range-Continues rows opt values b sorted in
            elim (Option-cases (next_range opt values)) [
              | inl ended ↦ (
                ok values ∷ [],
                get_ranges-step iteration fuel opt (ok values) [] read
                    (rw ended (get_ranges-none (iteration + 1) fuel)),
                (
                  b.rest,
                  b.first ∙ ap (λ t. t ++ b.rest) (sym (append-nil values.rows)),
                  λ whole. onward.stops ended,
                ),
              )
              | inr (opt', goes) ↦
                  let (left, some_rows) = onward.goes opt' goes in
                  let size = length-append values.rows b.rest in
                  let total = ap length b.first in
                  let fewer : length (selected opt' rows) < fuel = rw left (omega arith) in
                  let (items, done, (rest, split, end)) =
                    get_ranges-Gives rows fuel (iteration + 1) opt' client sorted fewer in
                  (
                    ok values ∷ items,
                    get_ranges-step iteration fuel opt (ok values) items read (rw goes done),
                    (
                      rest,
                      b.first
                          ∙ ap (λ t. values.rows ++ t) (sym left ∙ split)
                          ∙ sym (append_assoc values.rows (flattened items).0 rest),
                      end,
                    ),
                  )
            ]
      ]
