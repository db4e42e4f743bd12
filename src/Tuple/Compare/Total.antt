-- ===== src/Tuple/Compare/Total.antt =====
-- The order of byte strings is a total order.
use foundationdb_rs.Prelude.{
  ℕ, ◌≡◌, refl, Bool, true, false, List, [], ◌∷◌, Ordering, inl, inr, arith, Bool-cases,
}
use foundationdb_rs.Tuple.Compare.{cmp_bytes}
use foundationdb_rs.Tuple.Compare.Bytewise.{compare_self}

-- `<` of byte strings
abbrev pub before : List ℕ → List ℕ → Bool
before a b = elim (cmp_bytes a b) [ Ordering.lt ↦ true | _ ↦ false ]

pub before_irrefl : (a : List ℕ) → before a a ≡ false
before_irrefl [] = refl
before_irrefl (x ∷ a) = rw (compare_self x, before) (before_irrefl a)

pub before_trans : (a b c : List ℕ) → before a b ≡ true → before b c ≡ true → before a c ≡ true
before_trans [] [] c h k = cc
before_trans [] (y ∷ b) [] h k = cc
before_trans [] (y ∷ b) (z ∷ c) h k = refl
before_trans (x ∷ a) [] c h k = cc
before_trans (x ∷ a) (y ∷ b) [] h k = cc
before_trans (x ∷ a) (y ∷ b) (z ∷ c) h k = ground (arith, before_trans a b c)

-- Two byte strings neither of which is before the other are equal.
pub before_connected : (a b : List ℕ) → before a b ≡ false → before b a ≡ false → a ≡ b
before_connected [] [] h k = refl
before_connected [] (y ∷ b) h k = cc
before_connected (x ∷ a) [] h k = cc
before_connected (x ∷ a) (y ∷ b) h k = ground (arith, before_connected a b)

pub before_asym : (a b : List ℕ) → before a b ≡ true → before b a ≡ false
before_asym a b h = elim (Bool-cases (before b a)) [
  | inl back ↦ (let loop = before_trans a b a h back in let no = before_irrefl a in cc)
  | inr other ↦ other
]

-- `a` is at or before `b`, and `c` is not before `b`.
pub not_before_trans :
    (a b c : List ℕ) → before b a ≡ false → before c b ≡ false → before c a ≡ false
not_before_trans a b c h k = elim (Bool-cases (before c a)) [
  | inr other ↦ other
  | inl less ↦ elim (Bool-cases (before a b)) [
    | inl below ↦ (let no = before_trans c a b less below in cc)
    | inr level ↦
        let same = before_connected a b level h in
        let no : before c b ≡ true = rw same at less in cc
  ]
]

-- An order that is strict on one side is strict.
pub before_of_not : (a b c : List ℕ) → before a b ≡ true → before c b ≡ false → before a c ≡ true
before_of_not a b c h k = elim (Bool-cases (before b c)) [
  | inl more ↦ before_trans a b c h more
  | inr level ↦ let same = before_connected b c level k in rw (← same) h
]

pub before_of_le : (a b c : List ℕ) → before b a ≡ false → before b c ≡ true → before a c ≡ true
before_of_le a b c h k = elim (Bool-cases (before a b)) [
  | inl less ↦ before_trans a b c less k
  | inr level ↦ let same = before_connected a b level h in rw same k
]
