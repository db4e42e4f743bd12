-- ===== src/Tuple/Bytes/Escaped.antt =====
-- The loops of `write_bytes` and `parse_slice` against the escaped form by recursion.
use foundationdb_rs.Prelude.{
  ℕ, suc, ◌+◌, ◌<◌, ◌^◌, ◌≡◌, inl, inr, refl, ap, ap₂, ◌∙◌, false, List, [], ◌∷◌, ◌++◌, ◌==◌,
  ==_iff, if◌then◌else◌, Bool-cases, length, length-append, drop-append_eq, slice-append, get_elem?,
  drop, slice, append_assoc, append-nil, ok, ◌%◌, add_u32, lt→ltb, arith,
}
use foundationdb_rs.Tuple.Codes.{nil_code, escape}
use foundationdb_rs.Tuple.Offset.{VersionstampOffset}
use foundationdb_rs.Tuple.Bytes.{
  positions, Memchr, write_loop, write_bytes, is_escape, parse_loop, parse_slice,
}

-- Each zero byte is followed by an escape byte.
abbrev pub escaped : List ℕ → List ℕ
escaped [] = []
escaped (x ∷ xs) =
    let later = escaped xs in if x == nil_code then nil_code ∷ escape ∷ later else x ∷ later

-- How often a list holds zero.
abbrev pub nils : List ℕ → ℕ
nils [] = 0
nils (x ∷ xs) = let later = nils xs in if x == nil_code then suc later else later

-- What may follow a packed value: nothing, or a byte that is no escape.
abbrev pub IsClear : List ℕ → Type 0
IsClear [] = Unit
IsClear (b ∷ bs) = b < escape

pub length-escaped : (v : List ℕ) → length (escaped v) ≡ length v + nils v
length-escaped [] = omega arith
length-escaped (x ∷ v) = ground (arith, length-escaped v)

length-snoc : (xs ys : List ℕ) (z : ℕ) → length (xs ++ (ys ++ z ∷ [])) ≡ suc (length xs + length ys)
length-snoc xs ys z = omega (arith, length-append xs (ys ++ z ∷ []), length-append ys (z ∷ []))

slice_part :
    (v seen part rest : List ℕ) (x pos i : ℕ)
    → v ≡ seen ++ (part ++ x ∷ rest)
    → pos ≡ length seen
    → i ≡ length seen + length part
    → slice v pos (suc i) ≡ part ++ x ∷ []
slice_part v seen part rest x pos i e p q =
    let cut : part ++ x ∷ rest ≡ (part ++ x ∷ []) ++ rest = simp append_assoc in
    rw (e, cut)
      (slice-append pos (suc i) seen (part ++ x ∷ []) rest p
        (omega (arith, length-append part (x ∷ []))))

-- The loop stands at position `pos`, the end of `seen`; of `v` it has still to copy `part` and `rest`.
write_loop_lem :
    (v seen part rest : List ℕ) (pos i size : ℕ) (out : List ℕ)
    → v ≡ seen ++ (part ++ rest)
    → pos ≡ length seen
    → i ≡ length seen + length part
    → write_loop v (positions nil_code i rest) pos size out
      ≡ (out ++ (part ++ (escaped rest ++ nil_code ∷ [])), (size + nils rest + 2) % 2 ^ 32)
unfolding write_loop
write_loop_lem v seen part [] pos i size out e p q =
    let whole : drop pos v ≡ part = rw (e, append-nil part) (drop-append_eq pos seen part p) in
    rw whole (ap (λ n. (out ++ (part ++ nil_code ∷ []), n)) (omega arith))
write_loop_lem v seen part (x ∷ rest) pos i size out e p q = elim (Bool-cases (x == nil_code)) [
  | inl zero_byte ↦
      let x_nil = (==_iff x nil_code).0 zero_byte in
      let copied = slice_part v seen part rest x pos i e p q in
      rw zero_byte (
        rw (write_loop, copied)
          (write_loop_lem v (seen ++ (part ++ x ∷ [])) [] rest (suc i) (suc i) (add_u32 size 1)
              (out ++ ((part ++ x ∷ []) ++ escape ∷ [])) (rw e (simp append_assoc))
              (omega (arith, length-snoc seen part x)) (omega (arith, length-snoc seen part x))
            ∙ ap₂ (λ (l : List ℕ) (n : ℕ). (l, n)) (simp (x_nil, append_assoc)) (omega arith)))
  | inr other ↦ rw other (
      write_loop_lem v seen (part ++ x ∷ []) rest pos (suc i) size out (rw e (simp append_assoc)) p
        (omega (arith, length-append part (x ∷ [])))
      ∙ ap (λ (l : List ℕ). (out ++ l, (size + nils rest + 2) % 2 ^ 32))
          (append_assoc part (x ∷ []) (escaped rest ++ nil_code ∷ [])))
]

module _ (m : Memchr) where
  -- A byte string that fits is written escaped, with a zero byte behind it; the offset is its size.
  pub write_bytes-escaped :
      (v : List ℕ)
      → length v < 2 ^ 32
      → write_bytes m v
        ≡ ok (
          escaped v ++ nil_code ∷ [],
          VersionstampOffset.none ((length (escaped v ++ nil_code ∷ []) + 1) % 2 ^ 32),
        )
  unfolding write_bytes
  write_bytes-escaped v h =
      rw
        (
          lt→ltb (length v) (2 ^ 32) h,
          m.iter_positions nil_code v,
          write_loop_lem v [] [] v 0 0 (length v) [] refl refl refl,
        )
        (ap (λ (n : ℕ). ok (escaped v ++ nil_code ∷ [], VersionstampOffset.none (n % 2 ^ 32)))
          (omega (arith, length-escaped v, length-append (escaped v) (nil_code ∷ []))))

get_next :
    (input pre more : List ℕ) (n : ℕ)
    → input ≡ pre ++ more
    → n ≡ length pre
    → get_elem? input n ≡ get_elem? more 0
get_next input [] more n e p = rw (e, p)
get_next input (x ∷ pre) more n e p =
    rw (e, p) (get_next (pre ++ more) pre more (length pre) refl refl)

pub is_escape-clear : (rest : List ℕ) → IsClear rest → is_escape (get_elem? rest 0) ≡ false
is_escape-clear [] c = refl
is_escape-clear (b ∷ rest) c = ground arith

-- The bytes so far and a slice: at position 0 nothing has been collected.
borrowed :
    (pos : ℕ) (bytes part : List ℕ)
    → (pos ≡ 0 → bytes ≡ [])
    → (if pos == 0 then part else bytes ++ part) ≡ bytes ++ part
borrowed pos bytes part fresh = elim (Bool-cases (pos == 0)) [
  | inl start ↦ rw (start, fresh ((==_iff pos 0).0 start))
  | inr later ↦ rw later
]

-- Over the escaped form of `v` the loop stands at `pos`, the end of `seen`; `part` is passed over
-- and still to be copied, `v` is still to be read.
parse_loop_lem :
    (input seen part v rest : List ℕ) (pos i : ℕ) (bytes : List ℕ)
    → input ≡ seen ++ (part ++ (escaped v ++ nil_code ∷ rest))
    → pos ≡ length seen
    → i ≡ length seen + length part
    → (pos ≡ 0 → bytes ≡ [])
    → IsClear rest
    → parse_loop input (positions nil_code i (escaped v ++ nil_code ∷ rest)) pos bytes
      ≡ ok (rest, bytes ++ (part ++ v))
unfolding parse_loop
parse_loop_lem input seen part [] rest pos i bytes e p q fresh clear =
    let passed = seen ++ (part ++ nil_code ∷ []) in
    let at : input ≡ passed ++ rest = rw e (simp append_assoc) in
    let next : suc i ≡ length passed = omega (arith, length-snoc seen part nil_code) in
    let same = get_next input passed rest (suc i) at next in
    rw (same, is_escape-clear rest clear)
      (ap₂ (λ (l : List ℕ) (b : List ℕ). ok (l, b))
        (rw at (drop-append_eq (suc i) passed rest next))
        (borrowed pos bytes (slice input pos i) fresh
          ∙ ap (λ (l : List ℕ). bytes ++ l)
              (rw (e, append-nil part) (slice-append pos i seen part (nil_code ∷ rest) p q))))
parse_loop_lem input seen part (x ∷ v) rest pos i bytes e p q fresh clear =
    elim (Bool-cases (x == nil_code)) [
      | inl zero_byte ↦
          let x_nil = (==_iff x nil_code).0 zero_byte in
          let at : input ≡ seen ++ (part ++ nil_code ∷ escape ∷ (escaped v ++ nil_code ∷ rest)) =
            rw zero_byte at e in
          let passed = seen ++ (part ++ nil_code ∷ []) in
          let more = escape ∷ (escaped v ++ nil_code ∷ rest) in
          let same =
            get_next input passed more (suc i) (rw at (simp append_assoc))
              (omega (arith, length-snoc seen part nil_code)) in
          rw (zero_byte, parse_loop, same, slice_part input seen part more nil_code pos i at p q)
            (parse_loop_lem input (passed ++ escape ∷ []) [] v rest (suc (suc i)) (suc (suc i))
                (bytes ++ (part ++ nil_code ∷ [])) (rw at (simp append_assoc))
                (omega (arith, length-snoc seen part nil_code, length-append passed (escape ∷ [])))
                (omega (arith, length-snoc seen part nil_code, length-append passed (escape ∷ [])))
                (λ z. absurd (omega arith)) clear
              ∙ ap (λ (l : List ℕ). ok (rest, l)) (simp (x_nil, append_assoc)))
      | inr other ↦
          let at : input ≡ seen ++ (part ++ x ∷ (escaped v ++ nil_code ∷ rest)) = rw other at e in
          rw other (
            rw other (
              parse_loop_lem input seen (part ++ x ∷ []) v rest pos (suc i) bytes
                (rw at (simp append_assoc)) p (omega (arith, length-append part (x ∷ []))) fresh
                clear
              ∙ ap (λ (l : List ℕ). ok (rest, bytes ++ l)) (append_assoc part (x ∷ []) v)))
    ]

module _ (m : Memchr) where
  -- A byte string is read back from its escaped form, and the input that follows is left.
  pub parse_slice-escaped :
      (v rest : List ℕ) → IsClear rest → parse_slice m (escaped v ++ nil_code ∷ rest) ≡ ok (rest, v)
  unfolding parse_slice
  parse_slice-escaped v rest clear =
      let input = escaped v ++ nil_code ∷ rest in
      rw (m.iter_positions nil_code input)
        (parse_loop_lem input [] [] v rest 0 0 [] refl refl refl (λ _. refl) clear)

  -- A byte string of less than 2^32 bytes is written without an error, the offset counts the bytes
  -- written and the type code (modulo 2^32), and parsing gives the string back; what follows is left
  -- where it does not begin with an escape byte.
  pub parse_slice-write_bytes :
      (v rest : List ℕ)
      → length v < 2 ^ 32
      → IsClear rest
      → (bs : List ℕ) × (write_bytes m v
          ≡ ok (bs, VersionstampOffset.none ((length bs + 1) % 2 ^ 32)))
        × (parse_slice m (bs ++ rest) ≡ ok (rest, v))
  parse_slice-write_bytes v rest h clear =
      let whole = append_assoc (escaped v) (nil_code ∷ []) rest in
      (
        escaped v ++ nil_code ∷ [],
        write_bytes-escaped m v h,
        rw whole (parse_slice-escaped v rest clear),
      )
