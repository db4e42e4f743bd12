-- ===== src/Tuple/Compare/FirstBytes.antt =====
-- The first byte of a packed element tells its code, and no element begins like the end of a tuple.
use foundationdb_rs.Prelude.{
  ℕ, zero, suc, ◌+◌, ◌-◌, pos, negsuc, ◌≤◌, ◌<◌, ◌≡◌, ◌⊎◌, inl, inr, refl, ap, ◌∙◌, List, [], ◌∷◌,
  ◌++◌, true, false, ◌==◌, ==_iff, Bool-cases, ltb, lt→ltb, length, compare, Ordering, arith,
}
use foundationdb_rs.Tuple.Codes.{nil_code, nested_code, intzero, escape}
use foundationdb_rs.Tuple.Bytes.Escaped.{IsClear}
use foundationdb_rs.Tuple.Words.{be_bytes, byte_len, byte_len-le}
use foundationdb_rs.Tuple.Integers.Signed.{complement}
use foundationdb_rs.Tuple.Element.{
  Element, nil, bytes, string, tuple, int, float, double, bool, versionstamp, is_end_of_tuple,
}
use foundationdb_rs.Tuple.Element.Encoding.{encode, encode_all}
use foundationdb_rs.Tuple.Compare.{then_with, cmp_bytes, code, cmp_same}
use foundationdb_rs.Tuple.Compare.Bytewise.{
  compare_self, compare_lt, compare_gt, cmp_bytes-escape, cmp_bytes-escape_left,
}
use foundationdb_rs.Tuple.Compare.Numbers.{compare-cases, short_pos, short_neg}

-- The first byte is the code, or it lies in the range of the integers and the code is theirs.
abbrev pub Announces : ℕ → ℕ → Type 0
Announces c k =
    ((c ≡ k) × ((k < intzero - 8) ⊎ (intzero + 8 < k)))
    ⊎ ((k ≡ intzero) × (intzero - 8 ≤ c) × (c ≤ intzero + 8))

pub encode-Announces :
    (v : Element) (d : ℕ)
    → 0 < d
    → (c : ℕ) × (t : List ℕ) × (encode v d ≡ c ∷ t) × Announces c (code v)
unfolding code
encode-Announces nil d h = elim (Bool-cases (ltb 1 d)) [
  | inl deep ↦ (nil_code, escape ∷ [], rw deep, omega arith)
  | inr flat ↦ (nil_code, [], rw flat, omega arith)
]
encode-Announces (bytes v) d h = (_, _, refl, omega arith)
encode-Announces (string v) d h = (_, _, refl, omega arith)
encode-Announces (tuple vs) d h =
    (nested_code, encode_all vs (suc d) ++ nil_code ∷ [], rw (lt→ltb 0 d h), omega arith)
encode-Announces (int (pos u)) d h = (
  intzero + byte_len 8 u,
  be_bytes (byte_len 8 u) u,
  short_pos u,
  inr (refl, omega (arith, byte_len-le 8 u), omega (arith, byte_len-le 8 u)),
)
encode-Announces (int (negsuc k)) d h = (
  intzero - byte_len 8 (k + 1),
  be_bytes (byte_len 8 (k + 1)) (complement (byte_len 8 (k + 1)) (k + 1)),
  short_neg k,
  inr (refl, omega (arith, byte_len-le 8 (k + 1)), omega (arith, byte_len-le 8 (k + 1))),
)
encode-Announces (float f) d h = (_, _, refl, omega arith)
encode-Announces (double f) d h = (_, _, refl, omega arith)
encode-Announces (bool true) d h = (_, _, refl, omega arith)
encode-Announces (bool false) d h = (_, _, refl, omega arith)
encode-Announces (versionstamp v) d h = (_, _, refl, omega arith)

announced_less : (c k c' k' : ℕ) → Announces c k → Announces c' k' → k < k' → c < c'
announced_less c k c' k' p q h = ground arith

-- Values with different codes are told apart by their first bytes.
pub by_code :
    (a b : Element) (d : ℕ) (r s : List ℕ) (t : Ordering)
    → 0 < d
    → (code a ≡ code b → cmp_bytes (encode a d ++ r) (encode b d ++ s) ≡ then_with (cmp_same a b) t)
    → cmp_bytes (encode a d ++ r) (encode b d ++ s)
      ≡ then_with (then_with (compare (code a) (code b)) (cmp_same a b)) t
by_code a b d r s t h same =
    let (c, l, whole, at) = encode-Announces a d h in
    let (c', l', whole', at') = encode-Announces b d h in
    elim (compare-cases (code a) (code b)) [
      | inl less ↦
          rw (compare_lt (code a) (code b) less) (
            rw (whole, whole', compare_lt c c' (announced_less c (code a) c' (code b) at at' less)))
      | inr (inl equal) ↦ rw (same equal) (rw (equal, compare_self (code b)))
      | inr (inr greater) ↦ rw (compare_gt (code a) (code b) greater) (
          rw
            (whole, whole', compare_gt c c' (announced_less c' (code b) c (code a) at' at greater)))
    ]

-- The end of a nested tuple stands before every element.
pub end_first :
    (bs r : List ℕ)
    → is_end_of_tuple bs true ≡ false
    → 0 < length bs
    → IsClear r
    → cmp_bytes (nil_code ∷ r) bs ≡ Ordering.lt
unfolding is_end_of_tuple
end_first [] r h size clear = absurd (omega arith)
end_first (zero ∷ []) r h size clear = cc
end_first (zero ∷ b ∷ bs) r h size clear = elim (Bool-cases (b == escape)) [
  | inl mark ↦ rw (cmp_bytes, (==_iff b escape).0 mark) (cmp_bytes-escape r bs clear)
  | inr other ↦ (let open_end = rw other at h in cc)
]
end_first (suc x ∷ bs) r h size clear = rw (compare_lt 0 (suc x) (omega arith))

-- The same on the other side.
pub end_last :
    (bs r : List ℕ)
    → is_end_of_tuple bs true ≡ false
    → 0 < length bs
    → IsClear r
    → cmp_bytes bs (nil_code ∷ r) ≡ Ordering.gt
unfolding is_end_of_tuple
end_last [] r h size clear = absurd (omega arith)
end_last (zero ∷ []) r h size clear = cc
end_last (zero ∷ b ∷ bs) r h size clear = elim (Bool-cases (b == escape)) [
  | inl mark ↦
      ap (λ (x : ℕ). cmp_bytes (x ∷ bs) r) ((==_iff b escape).0 mark)
      ∙ cmp_bytes-escape_left r bs clear
  | inr other ↦ (let open_end = rw other at h in cc)
]
end_last (suc x ∷ bs) r h size clear = rw (compare_gt (suc x) 0 (omega arith))
