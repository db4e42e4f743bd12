-- ===== src/Profiling/Aggregate/Counts.antt =====
-- Maps of counts: what an entry that is added changes.
use foundationdb_rs.Prelude.{
  ℕ, ◌+◌, ◌<◌, ◌^◌, ◌%◌, ◌≡◌, refl, arith, Bool, true, false, if◌then◌else◌, List, [], ◌∷◌, All,
  inl, inr, Bool-cases,
}
use foundationdb_rs.Tuple.Compare.Total.{before, before_trans}
use foundationdb_rs.Profiling.Aggregate.{Counts, add_count, sum_from}

module _ {K : Type 0} where
  -- The hits of the keys that have some property
  abbrev pub count_where : (K → Bool) → Counts K → ℕ
  count_where p [] = 0
  count_where p ((k, count) ∷ rest) = (if p k then count else 0) + count_where p rest

  abbrev pub any_key : K → Bool
  any_key k = true

  abbrev pub hits : Counts K → ℕ
  hits counts = count_where any_key counts

  abbrev pub IsPositive : Counts K → Type 0
  IsPositive counts = All (λ (e : K × ℕ). 0 < e.1) counts

  abbrev pub IsConnected : (K → K → Bool) → Type 0
  IsConnected lt = (a b : K) → lt a b ≡ false → lt b a ≡ false → a ≡ b

  pub count_where-add_count :
      (lt : K → K → Bool) (p : K → Bool) (key : K) (n : ℕ) (counts : Counts K)
      → IsConnected lt
      → n + hits counts < 2 ^ 64
      → count_where p (add_count lt key n counts) ≡ (if p key then n else 0) + count_where p counts
  unfolding add_count
  count_where-add_count lt p key n [] total small =
      let same : (0 + n) % 2 ^ 64 ≡ n = omega arith in rw same refl
  count_where-add_count lt p key n ((k, count) ∷ rest) total small = elim (Bool-cases (lt key k)) [
    | inl less ↦ (let same : (0 + n) % 2 ^ 64 ≡ n = omega arith in rw (less, same) refl)
    | inr other ↦ elim (Bool-cases (lt k key)) [
      | inl more ↦
          let others = count_where-add_count lt p key n rest total (omega arith) in
          rw (other, more, others) (omega arith)
      | inr level ↦
          let same = total k key level other in
          let sum : (count + n) % 2 ^ 64 ≡ count + n = omega arith in
          rw (other, level, sum, same)
            (elim (Bool-cases (p key)) [
              | inl yes_key ↦ rw yes_key (omega arith)
              | inr no_key ↦ rw no_key (omega arith)
            ])
    ]
  ]

  pub IsPositive-add_count :
      (lt : K → K → Bool) (key : K) (n : ℕ) (counts : Counts K)
      → 0 < n
      → n + hits counts < 2 ^ 64
      → IsPositive counts
      → IsPositive (add_count lt key n counts)
  unfolding add_count
  IsPositive-add_count lt key n [] some_n small h = (omega arith, tt)
  IsPositive-add_count lt key n ((k, count) ∷ rest) some_n small h = elim (Bool-cases (lt key k)) [
    | inl less ↦ rw less (omega arith, h)
    | inr other ↦ elim (Bool-cases (lt k key)) [
      | inl more ↦
          rw (other, more) (h.0, IsPositive-add_count lt key n rest some_n (omega arith) h.1)
      | inr level ↦ rw (other, level) (omega arith, h.1)
    ]
  ]

  pub sum_from-hits :
      (acc : ℕ) (counts : Counts K)
      → acc + hits counts < 2 ^ 64
      → sum_from acc counts ≡ acc + hits counts
  unfolding sum_from
  sum_from-hits acc [] small = omega arith
  sum_from-hits acc ((k, count) ∷ rest) small =
      let same : (acc + count) % 2 ^ 64 ≡ acc + count = omega arith in
      rw same (omega (arith, sum_from-hits (acc + count) rest (omega arith)))

-- The keys of a map ascend.
abbrev pub IsAscending : Counts (List ℕ) → Type 0
IsAscending [] = Unit
IsAscending ((k, count) ∷ rest) =
    All (λ (e : List ℕ × ℕ). before k e.0 ≡ true) rest × IsAscending rest

Above-add_count :
    (low key : List ℕ) (n : ℕ) (counts : Counts (List ℕ))
    → before low key ≡ true
    → All (λ (e : List ℕ × ℕ). before low e.0 ≡ true) counts
    → All (λ (e : List ℕ × ℕ). before low e.0 ≡ true) (add_count before key n counts)
unfolding add_count
Above-add_count low key n [] less h = (less, tt)
Above-add_count low key n ((k, count) ∷ rest) less h = elim (Bool-cases (before key k)) [
  | inl first ↦ rw first (less, h)
  | inr other ↦ elim (Bool-cases (before k key)) [
    | inl more ↦ rw (other, more) (h.0, Above-add_count low key n rest less h.1)
    | inr level ↦ rw (other, level) h
  ]
]

Above-lower :
    (low key : List ℕ) (counts : Counts (List ℕ))
    → before low key ≡ true
    → All (λ (e : List ℕ × ℕ). before key e.0 ≡ true) counts
    → All (λ (e : List ℕ × ℕ). before low e.0 ≡ true) counts
Above-lower low key [] less h = tt
Above-lower low key ((k, count) ∷ rest) less h =
    (before_trans low key k less h.0, Above-lower low key rest less h.1)

pub IsAscending-add_count :
    (key : List ℕ) (n : ℕ) (counts : Counts (List ℕ))
    → IsAscending counts
    → IsAscending (add_count before key n counts)
unfolding add_count
IsAscending-add_count key n [] h = (tt, tt)
IsAscending-add_count key n ((k, count) ∷ rest) h = elim (Bool-cases (before key k)) [
  | inl first ↦ rw first ((first, Above-lower key k rest first h.0), h)
  | inr other ↦ elim (Bool-cases (before k key)) [
    | inl more ↦
        rw (other, more)
          (Above-add_count k key n rest more h.0, IsAscending-add_count key n rest h.1)
    | inr level ↦ rw (other, level) h
  ]
]
