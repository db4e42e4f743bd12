-- ===== src/Store/InMemory.antt =====
-- A transaction held in memory: a list of rows, which a range reads in the order of the keys. It shows
-- that what is required of a transaction can be met.
use foundationdb_rs.Prelude.{
  ℕ, ◌≡◌, ◌≢◌, ◌↔◌, refl, sym, ap, ◌∙◌, Bool, true, false, ◌&&◌, not, Bool-cases, inl, inr, Option,
  none, some, List, [], ◌∷◌, ◌++◌, if◌then◌else◌, ok, Ordering,
}
use foundationdb_rs.Store.Ranges.{RangeStore, Row, InRange, After}
use foundationdb_rs.Tuple.Versionstamp.{same_bytes, same_bytes-eq, same_bytes_self}
use foundationdb_rs.Tuple.Compare.{cmp_bytes}
use foundationdb_rs.Tuple.Compare.Bytewise.{cmp_bytes_self}

abbrev is_lt : Ordering → Bool
is_lt o = elim o [ Ordering.lt ↦ true | _ ↦ false ]

abbrev is_gt : Ordering → Bool
is_gt o = elim o [ Ordering.gt ↦ true | _ ↦ false ]

in_range : List ℕ → List ℕ → List ℕ → Bool
in_range begin end key = not (is_gt (cmp_bytes begin key)) && is_lt (cmp_bytes key end)

in_range_iff : (begin end key : List ℕ) → (in_range begin end key ≡ true) ↔ InRange begin end key
unfolding in_range
in_range_iff begin end key = go (cmp_bytes begin key) (cmp_bytes key end)
  where
    go :
        (a b : Ordering)
        → ((not (is_gt a) && is_lt b) ≡ true) ↔ ((a ≢ Ordering.gt) × (b ≡ Ordering.lt))
    go Ordering.lt Ordering.lt = (λ h. (λ e. cc, refl), λ h. refl)
    go Ordering.eq Ordering.lt = (λ h. (λ e. cc, refl), λ h. refl)
    go Ordering.gt b = (λ h. cc, λ h. absurd (h.0 refl))
    go Ordering.lt Ordering.eq = (λ h. cc, λ h. cc)
    go Ordering.lt Ordering.gt = (λ h. cc, λ h. cc)
    go Ordering.eq Ordering.eq = (λ h. cc, λ h. cc)
    go Ordering.eq Ordering.gt = (λ h. cc, λ h. cc)

-- The rows whose key is in the range, or is not.
select : Bool → List ℕ → List ℕ → List Row → List Row
select keep begin end [] = []
select keep begin end (row ∷ rows) =
    let rest = select keep begin end rows in
    let inside = in_range begin end row.0 in
    if (if keep then inside else not inside) then row ∷ rest else rest

find : List ℕ → List Row → Option (List ℕ)
find key [] = none
find key (row ∷ rows) =
    let rest = find key rows in if same_bytes row.0 key then some row.1 else rest

put : List ℕ → List ℕ → List Row → List Row
put key value [] = (key, value) ∷ []
put key value (row ∷ rows) =
    let rest = put key value rows in if same_bytes row.0 key then rest else row ∷ rest

place : Row → List Row → List Row
place row [] = row ∷ []
place row (r ∷ rows) =
    let rest = place row rows in if is_lt (cmp_bytes row.0 r.0) then row ∷ (r ∷ rows) else r ∷ rest

sort : List Row → List Row
sort [] = []
sort (row ∷ rows) = place row (sort rows)

find-put : (key value : List ℕ) (rows : List Row) → find key (put key value rows) ≡ some value
unfolding find put
find-put key value [] = rw (same_bytes_self key) refl
find-put key value (row ∷ rows) = elim (Bool-cases (same_bytes row.0 key)) [
  | inl same ↦ rw same (find-put key value rows)
  | inr other ↦ rw (other, other) (find-put key value rows)
]

find-put_other :
    (key other value : List ℕ) (rows : List Row)
    → other ≢ key
    → find other (put key value rows) ≡ find other rows
unfolding find put
find-put_other key other value [] apart = elim (Bool-cases (same_bytes key other)) [
  | inl same ↦ absurd (apart (sym (same_bytes-eq key other same)))
  | inr differ ↦ rw differ refl
]
find-put_other key other value (row ∷ rows) apart = elim (Bool-cases (same_bytes row.0 key)) [
  | inl same ↦ elim (Bool-cases (same_bytes row.0 other)) [
    | inl twice ↦
        absurd (apart (sym (same_bytes-eq row.0 other twice) ∙ same_bytes-eq row.0 key same))
    | inr differ ↦ rw (same, differ) (find-put_other key other value rows apart)
  ]
  | inr differ ↦ rw (differ, find-put_other key other value rows apart) refl
]

find-select :
    (key begin end : List ℕ) (rows : List Row)
    → in_range begin end key ≡ false
    → find key (select false begin end rows) ≡ find key rows
unfolding find select
find-select key begin end [] out = refl
find-select key begin end (row ∷ rows) out = elim (Bool-cases (same_bytes row.0 key)) [
  | inl same ↦ let it = same_bytes-eq row.0 key same in rw (it, out, same_bytes_self key) refl
  | inr differ ↦ elim (Bool-cases (in_range begin end row.0)) [
    | inl inside ↦ rw (inside, differ) (find-select key begin end rows out)
    | inr outside ↦ rw (outside, differ) (find-select key begin end rows out)
  ]
]

select-select :
    (begin end : List ℕ) (rows : List Row)
    → select true begin end (select false begin end rows) ≡ []
unfolding select
select-select begin end [] = refl
select-select begin end (row ∷ rows) = elim (Bool-cases (in_range begin end row.0)) [
  | inl inside ↦ rw inside (select-select begin end rows)
  | inr outside ↦ rw (outside, outside) (select-select begin end rows)
]

select-put_other :
    (begin end key value : List ℕ) (rows : List Row)
    → in_range begin end key ≡ false
    → select true begin end (put key value rows) ≡ select true begin end rows
unfolding select put
select-put_other begin end key value [] out = rw out refl
select-put_other begin end key value (row ∷ rows) out = elim (Bool-cases (same_bytes row.0 key)) [
  | inl same ↦
      let it = same_bytes-eq row.0 key same in
      rw (it, out, same_bytes_self key) (select-put_other begin end key value rows out)
  | inr differ ↦ rw (differ, select-put_other begin end key value rows out) refl
]

select-put_last :
    (begin end key value : List ℕ) (rows : List Row)
    → in_range begin end key ≡ true
    → After key (select true begin end rows)
    → select true begin end (put key value rows) ≡ select true begin end rows ++ (key, value) ∷ []
unfolding select put
select-put_last begin end key value [] inside after = rw inside refl
select-put_last begin end key value (row ∷ rows) inside after =
    elim (Bool-cases (same_bytes row.0 key)) [
      | inl same ↦
          let it = same_bytes-eq row.0 key same in
          let here = rw (it, inside) at after in let equal = cmp_bytes_self key in cc
      | inr differ ↦ elim (Bool-cases (in_range begin end row.0)) [
        | inl within ↦
            let rest = rw within at after in
            rw (differ, within, select-put_last begin end key value rows inside rest.1) refl
        | inr out ↦
            rw (differ, out) (select-put_last begin end key value rows inside (rw out at after))
      ]
    ]

After-place :
    (key : List ℕ) (row : Row) (rows : List Row)
    → After key (place row rows)
    → After key (row ∷ rows)
unfolding place
After-place key row [] h = h
After-place key row (r ∷ rows) h = elim (Bool-cases (is_lt (cmp_bytes row.0 r.0))) [
  | inl less ↦ rw less at h
  | inr more ↦
      let split = rw more at h in
      let below = After-place key row rows split.1 in (below.0, (split.0, below.1))
]

After-sort : (key : List ℕ) (rows : List Row) → After key (sort rows) → After key rows
unfolding sort
After-sort key [] h = tt
After-sort key (row ∷ rows) h =
    let both = After-place key row (sort rows) h in (both.0, After-sort key rows both.1)

place-append :
    (row last : Row) (rows : List Row)
    → cmp_bytes row.0 last.0 ≡ Ordering.lt
    → place row (rows ++ last ∷ []) ≡ place row rows ++ last ∷ []
unfolding place
place-append row last [] h = rw h refl
place-append row last (r ∷ rows) h = elim (Bool-cases (is_lt (cmp_bytes row.0 r.0))) [
  | inl less ↦ rw less refl
  | inr more ↦ rw (more, place-append row last rows h) refl
]

sort-append :
    (last : Row) (rows : List Row)
    → After last.0 rows
    → sort (rows ++ last ∷ []) ≡ sort rows ++ last ∷ []
unfolding sort place
sort-append last [] h = refl
sort-append last (row ∷ rows) h =
    rw (sort-append last rows h.1) (place-append row last (sort rows) h.0)

out_of : (begin end key : List ℕ) → (InRange begin end key → ⊥) → in_range begin end key ≡ false
out_of begin end key out = elim (Bool-cases (in_range begin end key)) [
  | inl inside ↦ absurd (out ((in_range_iff begin end key).0 inside))
  | inr outside ↦ outside
]

sorted_last :
    (begin end key value : List ℕ) (rows read : List Row)
    → ◌≡◌ {A = List Row × Option ℕ} (sort (select true begin end rows), none) (read, none)
    → InRange begin end key
    → After key read
    → ◌≡◌ {A = List Row × Option ℕ}
        (sort (select true begin end (put key value rows)), none)
        (read ++ (key, value) ∷ [], none)
sorted_last begin end key value rows read h inside after =
    let same : sort (select true begin end rows) ≡ read = ap (λ p. p.0) h in
    let below : After key (select true begin end rows) =
      After-sort key (select true begin end rows) (rw same after) in
    rw
      (
        select-put_last begin end key value rows ((in_range_iff begin end key).1 inside) below,
        sort-append (key, value) (select true begin end rows) below,
        same,
      )
      refl

pub in_memory : RangeStore
unfolding sort
in_memory = record {
  Txn = List Row;
  get = λ rows key. ok (find key rows);
  set = λ rows key value. put key value rows;
  clear_range = λ rows begin end. select false begin end rows;
  stream = λ rows begin end. (sort (select true begin end rows), none);
  get_set = λ rows key value. ap ok (find-put key value rows);
  get_set_other = λ rows key other value apart. ap ok (find-put_other key other value rows apart);
  get_clear_other =
      λ rows begin end key out. ap ok (find-select key begin end rows (out_of begin end key out));
  stream_clear =
      λ rows begin end read h. ap (λ (l : List Row). (sort l, none)) (select-select begin end rows);
  stream_set_last = λ rows begin end key value read h inside after.
      sorted_last begin end key value rows read h inside after;
  stream_set_other = λ rows begin end key value out.
      ap (λ (l : List Row). (sort l, none))
        (select-put_other begin end key value rows (out_of begin end key out));
}

-- A transaction of an empty database
pub empty : in_memory.Txn
unfolding in_memory
empty = []

pub get-empty : (key : List ℕ) → in_memory.get empty key ≡ ok none
unfolding in_memory empty find
get-empty key = refl

pub stream-empty : (begin end : List ℕ) → in_memory.stream empty begin end ≡ ([], none)
unfolding in_memory empty select sort
stream-empty begin end = refl
