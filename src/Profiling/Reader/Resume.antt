-- ===== src/Profiling/Reader/Resume.antt =====
-- Where the next page begins: behind all that this page gives, and at or before all that it leaves.
use foundationdb_rs.Prelude.{
  ℕ, ◌≡◌, refl, arith, true, false, ◌+◌, Option, List, [], ◌∷◌, All, inl, inr, Bool-cases,
  Option-cases,
}
use foundationdb_rs.Tuple.Compare.Bytewise.{compare_self}
use foundationdb_rs.Tuple.Compare.Total.{before, before_asym, before_of_le, not_before_trans}
use foundationdb_rs.Profiling.Reader.{
  Output, Partial, Assembler, IdMap, Numbered, number_from, place_by_first, sort_by_first, keep,
  after_last, key_after,
}
use foundationdb_rs.Profiling.Reader.Cut.{IsCut}
use foundationdb_rs.Profiling.Reader.Placed.{is_seen, IsOutput, Each}

-- The outputs that are kept end before the next page, and those that are not begin at or behind it.
pub data Splits (next : List ℕ) : List Output → List Output → Type 0 where
  nil : Splits next [] []
  kept :
      (o : Output) (os ks : List Output)
      → before o.last_key next ≡ true
      → Splits next os ks
      → Splits next (o ∷ os) (o ∷ ks)
  left :
      (o : Output) (os ks : List Output)
      → before o.first_key next ≡ false
      → Splits next os ks
      → Splits next (o ∷ os) ks

pub keep-Splits :
    (next dropped : List ℕ) (n : ℕ) (os : List Output)
    → All (IsCut next dropped) (number_from n os)
    → Splits next os (keep (number_from n os) dropped)
unfolding number_from keep
keep-Splits next dropped n [] hs = nil
keep-Splits next dropped n (o ∷ os) hs =
    let rest = keep-Splits next dropped (n + 1) os hs.1 in
    elim hs.0 [
      | inl (gone, behind) ↦ rw gone (left o os (keep (number_from (n + 1) os) dropped) behind rest)
      | inr (here, ends) ↦ rw here (kept o os (keep (number_from (n + 1) os) dropped) ends rest)
    ]

pub Splits-All :
    (next : List ℕ) (os : List Output)
    → All (λ (o : Output). before o.last_key next ≡ true) os
    → Splits next os os
Splits-All next [] hs = nil
Splits-All next (o ∷ os) hs = kept o os os hs.0 (Splits-All next os hs.1)

pub All-each :
    {A : Type 0} (P Q : A → Type 0) (xs : List A) → ((x : A) → P x → Q x) → All P xs → All Q xs
All-each P Q [] f hs = tt
All-each P Q (x ∷ xs) f hs = (f x hs.0, All-each P Q xs f hs.1)

-- The outputs below a start stay so when they are numbered.
pub All-number_from :
    (start : List ℕ) (last : Option (List ℕ)) (n : ℕ) (os : List Output)
    → All (IsOutput start last) os
    → All (λ (y : Numbered). before (y.1).first_key start ≡ false) (number_from n os)
unfolding number_from
All-number_from start last n [] hs = tt
All-number_from start last n (o ∷ os) hs =
    let h = hs.0 in (h.inside, All-number_from start last (n + 1) os hs.1)

-- The partial transactions in the order of their first keys
abbrev pub IsAscending : List Partial → Type 0
IsAscending [] = Unit
IsAscending (p ∷ ps) =
    All (λ (q : Partial). before q.first_key p.first_key ≡ false) ps × IsAscending ps

module _ (P : Partial → Type 0) where
  All-place_by_first :
      (p : Partial) (qs : List Partial) → P p → All P qs → All P (place_by_first p qs)
  unfolding place_by_first
  All-place_by_first p [] h hs = (h, tt)
  All-place_by_first p (q ∷ qs) h hs = elim (Bool-cases (before q.first_key p.first_key)) [
    | inl less ↦ rw less (hs.0, All-place_by_first p qs h hs.1)
    | inr other ↦ rw other (h, hs)
  ]

  place_by_first-All :
      (p : Partial) (qs : List Partial) → All P (place_by_first p qs) → P p × All P qs
  unfolding place_by_first
  place_by_first-All p [] hs = hs
  place_by_first-All p (q ∷ qs) hs = elim (Bool-cases (before q.first_key p.first_key)) [
    | inl less ↦
        let found = rw less at hs in
        let (h, others) = place_by_first-All p qs found.1 in (h, (found.0, others))
    | inr other ↦ rw other at hs
  ]

  pub sort_by_first-All : (entries : IdMap Partial) → All P (sort_by_first entries) → Each P entries
  unfolding sort_by_first
  sort_by_first-All [] hs = tt
  sort_by_first-All ((id, p) ∷ rest) hs =
      let (h, others) = place_by_first-All p (sort_by_first rest) hs in
      (h, sort_by_first-All rest others)

  pub All-sort_by_first : (entries : IdMap Partial) → Each P entries → All P (sort_by_first entries)
  unfolding sort_by_first
  All-sort_by_first [] hs = tt
  All-sort_by_first ((id, p) ∷ rest) hs =
      All-place_by_first p (sort_by_first rest) hs.0 (All-sort_by_first rest hs.1)

IsAscending-place_by_first :
    (p : Partial) (qs : List Partial) → IsAscending qs → IsAscending (place_by_first p qs)
unfolding place_by_first
IsAscending-place_by_first p [] hs = (tt, tt)
IsAscending-place_by_first p (q ∷ qs) hs = elim (Bool-cases (before q.first_key p.first_key)) [
  | inl less ↦ rw less (
    All-place_by_first (λ r. before r.first_key q.first_key ≡ false) p qs
        (before_asym q.first_key p.first_key less) hs.0,
    IsAscending-place_by_first p qs hs.1,
  )
  | inr other ↦ rw other (
    (
      other,
      All-each (λ r. before r.first_key q.first_key ≡ false)
          (λ r. before r.first_key p.first_key ≡ false) qs
          (λ r h. not_before_trans p.first_key q.first_key r.first_key other h) hs.0,
    ),
    hs,
  )
]

pub IsAscending-sort_by_first : (entries : IdMap Partial) → IsAscending (sort_by_first entries)
unfolding sort_by_first
IsAscending-sort_by_first [] = tt
IsAscending-sort_by_first ((id, p) ∷ rest) =
    IsAscending-place_by_first p (sort_by_first rest) (IsAscending-sort_by_first rest)

pub before-key_after : (key : List ℕ) → before key (key_after key) ≡ true
unfolding key_after
before-key_after [] = refl
before-key_after (x ∷ key) = rw (compare_self x, before) (before-key_after key)

pub is_seen-before :
    (a : Assembler) (k : List ℕ) → is_seen a.last_key k ≡ true → before k (after_last a) ≡ true
is_seen-before a k seen = elim (Option-cases a.last_key) [
  | inl absent ↦ (let no = rw absent at seen in cc)
  | inr (last, there) ↦
      let found = rw there at seen in
      let reached : before last k ≡ false = ground arith in
      rw there (before_of_le k last (key_after last) reached (before-key_after last))
]
