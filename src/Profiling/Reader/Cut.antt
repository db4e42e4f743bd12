-- ===== src/Profiling/Reader/Cut.antt =====
-- Where a page is cut: every output is either dropped, and begins at or behind the cut, or ends before it.
use foundationdb_rs.Prelude.{
  ℕ, ◌+◌, ◌≡◌, refl, subst, arith, true, false, if◌then◌else◌, leb, ◌==◌, List, [], ◌∷◌, All, ◌⊎◌,
  inl, inr, Bool-cases,
}
use foundationdb_rs.Tuple.Compare.Total.{
  before, before_irrefl, before_asym, before_of_le, not_before_trans,
}
use foundationdb_rs.Profiling.Reader.{
  Output, Numbered, number_from, place_by_last, sort_by_last, cut_loop, is_member,
}

-- The numbers of the outputs are not this one.
abbrev Fresh : ℕ → List Numbered → Type 0
Fresh n xs = All (λ (y : Numbered). (n == y.0) ≡ false) xs

abbrev pub IsDistinct : List Numbered → Type 0
IsDistinct [] = Unit
IsDistinct (x ∷ xs) = Fresh x.0 xs × IsDistinct xs

-- The last keys descend.
abbrev pub IsDescending : List Numbered → Type 0
IsDescending [] = Unit
IsDescending (x ∷ xs) =
    All (λ (y : Numbered). before (x.1).last_key (y.1).last_key ≡ false) xs × IsDescending xs

module _ (P : Numbered → Type 0) where
  All-place_by_last :
      (x : Numbered) (ys : List Numbered) → P x → All P ys → All P (place_by_last x ys)
  unfolding place_by_last
  All-place_by_last x [] h hs = (h, tt)
  All-place_by_last x (y ∷ ys) h hs = elim (Bool-cases (before (x.1).last_key (y.1).last_key)) [
    | inl less ↦ rw less (hs.0, All-place_by_last x ys h hs.1)
    | inr other ↦ rw other (h, hs)
  ]

  place_by_last-All :
      (x : Numbered) (ys : List Numbered) → All P (place_by_last x ys) → P x × All P ys
  unfolding place_by_last
  place_by_last-All x [] hs = hs
  place_by_last-All x (y ∷ ys) hs = elim (Bool-cases (before (x.1).last_key (y.1).last_key)) [
    | inl less ↦
        let found = rw less at hs in
        let (h, others) = place_by_last-All x ys found.1 in (h, (found.0, others))
    | inr other ↦ rw other at hs
  ]

  pub All-sort_by_last : (xs : List Numbered) → All P xs → All P (sort_by_last xs)
  unfolding sort_by_last
  All-sort_by_last [] hs = tt
  All-sort_by_last (x ∷ xs) hs =
      All-place_by_last x (sort_by_last xs) hs.0 (All-sort_by_last xs hs.1)

  pub sort_by_last-All : (xs : List Numbered) → All P (sort_by_last xs) → All P xs
  unfolding sort_by_last
  sort_by_last-All [] hs = tt
  sort_by_last-All (x ∷ xs) hs =
      let (h, others) = place_by_last-All x (sort_by_last xs) hs in (h, sort_by_last-All xs others)

pub All-map :
    (P Q : Numbered → Type 0) (xs : List Numbered)
    → ((x : Numbered) → P x → Q x)
    → All P xs
    → All Q xs
All-map P Q [] f hs = tt
All-map P Q (x ∷ xs) f hs = (f x hs.0, All-map P Q xs f hs.1)

IsDistinct-place_by_last :
    (x : Numbered) (ys : List Numbered)
    → Fresh x.0 ys
    → IsDistinct ys
    → IsDistinct (place_by_last x ys)
unfolding place_by_last
IsDistinct-place_by_last x [] fresh hs = (tt, tt)
IsDistinct-place_by_last x (y ∷ ys) fresh hs =
    elim (Bool-cases (before (x.1).last_key (y.1).last_key)) [
      | inl less ↦
          let apart : (y.0 == x.0) ≡ false = (let h = fresh.0 in grind arith) in
          rw less (
            All-place_by_last (λ z. (y.0 == z.0) ≡ false) x ys apart hs.0,
            IsDistinct-place_by_last x ys fresh.1 hs.1,
          )
      | inr other ↦ rw other (fresh, hs)
    ]

IsDescending-place_by_last :
    (x : Numbered) (ys : List Numbered) → IsDescending ys → IsDescending (place_by_last x ys)
unfolding place_by_last
IsDescending-place_by_last x [] hs = (tt, tt)
IsDescending-place_by_last x (y ∷ ys) hs =
    elim (Bool-cases (before (x.1).last_key (y.1).last_key)) [
      | inl less ↦ rw less (
        All-place_by_last (λ z. before (y.1).last_key (z.1).last_key ≡ false) x ys
            (before_asym (x.1).last_key (y.1).last_key less) hs.0,
        IsDescending-place_by_last x ys hs.1,
      )
      | inr other ↦ rw other (
        (
          other,
          All-map (λ z. before (y.1).last_key (z.1).last_key ≡ false)
              (λ z. before (x.1).last_key (z.1).last_key ≡ false) ys
              (λ z h. not_before_trans (z.1).last_key (y.1).last_key (x.1).last_key h other) hs.0,
        ),
        hs,
      )
    ]

pub IsDescending-sort_by_last : (xs : List Numbered) → IsDescending (sort_by_last xs)
unfolding sort_by_last
IsDescending-sort_by_last [] = tt
IsDescending-sort_by_last (x ∷ xs) =
    IsDescending-place_by_last x (sort_by_last xs) (IsDescending-sort_by_last xs)

pub IsDistinct-sort_by_last : (xs : List Numbered) → IsDistinct xs → IsDistinct (sort_by_last xs)
unfolding sort_by_last
IsDistinct-sort_by_last [] hs = tt
IsDistinct-sort_by_last (x ∷ xs) hs =
    IsDistinct-place_by_last x (sort_by_last xs)
      (All-sort_by_last (λ y. (x.0 == y.0) ≡ false) xs hs.0) (IsDistinct-sort_by_last xs hs.1)

number_from-above : (n k : ℕ) (os : List Output) → leb (n + 1) k ≡ true → Fresh n (number_from k os)
unfolding number_from
number_from-above n k [] h = tt
number_from-above n k (o ∷ os) h =
    let apart : (n == k) ≡ false = grind arith in
    (apart, number_from-above n (k + 1) os (grind arith))

pub IsDistinct-number_from : (n : ℕ) (os : List Output) → IsDistinct (number_from n os)
unfolding number_from
IsDistinct-number_from n [] = tt
IsDistinct-number_from n (o ∷ os) =
    (number_from-above n (n + 1) os (grind arith), IsDistinct-number_from (n + 1) os)

-- What a cut at a key, with some outputs dropped, says of an output.
abbrev pub IsCut : List ℕ → List ℕ → Numbered → Type 0
IsCut cut dropped y =
    ((is_member y.0 dropped ≡ true) × (before (y.1).first_key cut ≡ false))
    ⊎ ((is_member y.0 dropped ≡ false) × (before (y.1).last_key cut ≡ true))

-- One more dropped output leaves the others as they are.
IsCut-drop :
    (cut dropped : List ℕ) (n : ℕ) (xs : List Numbered)
    → Fresh n xs
    → All (IsCut cut dropped) xs
    → All (IsCut cut (n ∷ dropped)) xs
unfolding is_member
IsCut-drop cut dropped n [] fresh hs = tt
IsCut-drop cut dropped n (y ∷ ys) fresh hs = (
  elim hs.0 [
    | inl (there, h) ↦ inl (rw (fresh.0, there) refl, h)
    | inr (gone, h) ↦ inr (rw (fresh.0, gone) refl, h)
  ],
  IsCut-drop cut dropped n ys fresh.1 hs.1,
)

pub cut_loop-below : (cut : List ℕ) (xs : List Numbered) → before cut (cut_loop cut xs).0 ≡ false
unfolding cut_loop
cut_loop-below cut [] = before_irrefl cut
cut_loop-below cut ((n, o) ∷ rest) = elim (Bool-cases (before o.last_key cut)) [
  | inl ends ↦ rw ends (before_irrefl cut)
  | inr drops ↦ elim (Bool-cases (before o.first_key cut)) [
    | inl lower ↦
        rw (drops, lower)
          (not_before_trans (cut_loop o.first_key rest).0 o.first_key cut
            (cut_loop-below o.first_key rest) (before_asym o.first_key cut lower))
    | inr same ↦ rw (drops, same) (cut_loop-below cut rest)
  ]
]

pub cut_loop-above :
    (start cut : List ℕ) (xs : List Numbered)
    → before cut start ≡ false
    → All (λ (y : Numbered). before (y.1).first_key start ≡ false) xs
    → before (cut_loop cut xs).0 start ≡ false
unfolding cut_loop
cut_loop-above start cut [] h hs = h
cut_loop-above start cut ((n, o) ∷ rest) h hs = elim (Bool-cases (before o.last_key cut)) [
  | inl ends ↦ rw ends h
  | inr drops ↦ elim (Bool-cases (before o.first_key cut)) [
    | inl lower ↦ rw (drops, lower) (cut_loop-above start o.first_key rest hs.0 hs.1)
    | inr same ↦ rw (drops, same) (cut_loop-above start cut rest h hs.1)
  ]
]

cut_loop-ends :
    (cut : List ℕ) (n : ℕ) (o : Output) (rest : List Numbered)
    → before o.last_key cut ≡ true
    → (cut, []) ≡ cut_loop cut ((n, o) ∷ rest)
unfolding cut_loop
cut_loop-ends cut n o rest ends = rw ends refl

-- What the cut is lowered to by a dropped output
abbrev lowered : List ℕ → Output → List ℕ
lowered cut o = if before o.first_key cut then o.first_key else cut

cut_loop-drops :
    (cut : List ℕ) (n : ℕ) (o : Output) (rest : List Numbered)
    → before o.last_key cut ≡ false
    → ((cut_loop (lowered cut o) rest).0, n ∷ (cut_loop (lowered cut o) rest).1)
      ≡ cut_loop cut ((n, o) ∷ rest)
unfolding cut_loop
cut_loop-drops cut n o rest drops = rw drops refl

lowered-below : (cut : List ℕ) (o : Output) → before o.first_key (lowered cut o) ≡ false
lowered-below cut o = elim (Bool-cases (before o.first_key cut)) [
  | inl lower ↦ rw lower (before_irrefl o.first_key)
  | inr same ↦ rw (same, same) refl
]

is_member-nil : (n : ℕ) → is_member n [] ≡ false
unfolding is_member
is_member-nil n = refl

is_member-here : (n : ℕ) (ns : List ℕ) → is_member n (n ∷ ns) ≡ true
unfolding is_member
is_member-here n ns = grind arith

-- Where the last keys descend, the loop drops exactly what the cut, in the end, needs to be dropped.
pub cut_loop-IsCut :
    (cut : List ℕ) (xs : List Numbered)
    → IsDistinct xs
    → IsDescending xs
    → All (IsCut (cut_loop cut xs).0 (cut_loop cut xs).1) xs
cut_loop-IsCut cut [] apart down = tt
cut_loop-IsCut cut ((n, o) ∷ rest) apart down =
    let AllCut : List ℕ × List ℕ → Type 0 = λ r. All (IsCut r.0 r.1) ((n, o) ∷ rest) in
    elim (Bool-cases (before o.last_key cut)) [
      | inl ends ↦ subst AllCut (cut_loop-ends cut n o rest ends) (
        inr (is_member-nil n, ends),
        All-map (λ y. before o.last_key (y.1).last_key ≡ false) (IsCut cut []) rest
            (λ y h. inr (is_member-nil y.0, before_of_le (y.1).last_key o.last_key cut h ends))
            down.0,
      )
      | inr drops ↦
          let lower = lowered cut o in
          let found = cut_loop lower rest in
          subst AllCut (cut_loop-drops cut n o rest drops) (
            inl (
              is_member-here n found.1,
              not_before_trans found.0 lower o.first_key (cut_loop-below lower rest)
                  (lowered-below cut o),
            ),
            IsCut-drop found.0 found.1 n rest apart.0 (cut_loop-IsCut lower rest apart.1 down.1),
          )
    ]
