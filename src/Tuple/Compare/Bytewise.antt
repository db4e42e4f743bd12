-- ===== src/Tuple/Compare/Bytewise.antt =====
-- The byte order of escaped byte strings is the order of the byte strings.
use foundationdb_rs.Prelude.{
  ℕ, ◌<◌, ◌≡◌, refl, List, [], ◌∷◌, ◌++◌, ◌==◌, ==_iff, Bool-cases, inl, inr, length, compare,
  Ordering, arith,
}
use foundationdb_rs.Tuple.Codes.{nil_code, escape}
use foundationdb_rs.Tuple.Bytes.Escaped.{escaped, IsClear}
use foundationdb_rs.Tuple.Compare.{then_with, cmp_bytes}

pub compare_self : (a : ℕ) → compare a a ≡ Ordering.eq
compare_self a = ground arith

pub cmp_bytes_self : (v : List ℕ) → cmp_bytes v v ≡ Ordering.eq
cmp_bytes_self [] = refl
cmp_bytes_self (x ∷ v) = rw (compare_self x) (cmp_bytes_self v)

pub compare_lt : (a b : ℕ) → a < b → compare a b ≡ Ordering.lt
compare_lt a b h = ground arith

pub compare_gt : (a b : ℕ) → b < a → compare a b ≡ Ordering.gt
compare_gt a b h = ground arith

pub then_with_assoc : (a b c : Ordering) → then_with (then_with a b) c ≡ then_with a (then_with b c)
then_with_assoc Ordering.lt b c = refl
then_with_assoc Ordering.eq b c = refl
then_with_assoc Ordering.gt b c = refl

-- Byte strings of one length decide before what follows them.
pub cmp_bytes-append :
    (v w r s : List ℕ)
    → length v ≡ length w
    → cmp_bytes (v ++ r) (w ++ s) ≡ then_with (cmp_bytes v w) (cmp_bytes r s)
cmp_bytes-append [] [] r s h = refl
cmp_bytes-append [] (y ∷ w) r s h = absurd (omega arith)
cmp_bytes-append (x ∷ v) [] r s h = absurd (omega arith)
cmp_bytes-append (x ∷ v) (y ∷ w) r s h =
    rw (cmp_bytes-append v w r s (omega arith), then_with_assoc)

-- What may follow a value stands before an escape.
pub cmp_bytes-escape : (r t : List ℕ) → IsClear r → cmp_bytes r (escape ∷ t) ≡ Ordering.lt
cmp_bytes-escape [] t c = refl
cmp_bytes-escape (b ∷ r) t c = rw (compare_lt b escape c)

pub cmp_bytes-escape_left : (r t : List ℕ) → IsClear r → cmp_bytes (escape ∷ t) r ≡ Ordering.gt
cmp_bytes-escape_left [] t c = refl
cmp_bytes-escape_left (b ∷ r) t c = rw (compare_gt escape b c)

-- The order of two escaped byte strings, and then of what follows them.
pub cmp_bytes-escaped :
    (v w r s : List ℕ)
    → IsClear r
    → IsClear s
    → cmp_bytes (escaped v ++ nil_code ∷ r) (escaped w ++ nil_code ∷ s)
      ≡ then_with (cmp_bytes v w) (cmp_bytes r s)
cmp_bytes-escaped [] [] r s cr cs = refl
cmp_bytes-escaped [] (y ∷ w) r s cr cs = elim (Bool-cases (y == nil_code)) [
  | inl zero_byte ↦ rw zero_byte (cmp_bytes-escape r (escaped w ++ nil_code ∷ s) cr)
  | inr other ↦ rw other (rw (compare_lt 0 y (ground arith)))
]
cmp_bytes-escaped (x ∷ v) [] r s cr cs = elim (Bool-cases (x == nil_code)) [
  | inl zero_byte ↦ rw zero_byte (cmp_bytes-escape_left s (escaped v ++ nil_code ∷ r) cs)
  | inr other ↦ rw other (rw (compare_gt x 0 (ground arith)))
]
cmp_bytes-escaped (x ∷ v) (y ∷ w) r s cr cs = elim (Bool-cases (x == nil_code)) [
  | inl zero_x ↦
      let x_nil = (==_iff x nil_code).0 zero_x in
      elim (Bool-cases (y == nil_code)) [
        | inl zero_y ↦
            let y_nil = (==_iff y nil_code).0 zero_y in
            rw (zero_x, zero_y) (rw (x_nil, y_nil) (cmp_bytes-escaped v w r s cr cs))
        | inr other ↦ rw (zero_x, other) (rw x_nil (rw (compare_lt 0 y (ground arith))))
      ]
  | inr other_x ↦ elim (Bool-cases (y == nil_code)) [
    | inl zero_y ↦
        let y_nil = (==_iff y nil_code).0 zero_y in
        rw (other_x, zero_y) (rw y_nil (rw (compare_gt x 0 (ground arith))))
    | inr other_y ↦ rw (other_x, other_y) (rw (cmp_bytes-escaped v w r s cr cs, then_with_assoc))
  ]
]
