-- ===== src/Profiling/Decode/Advances.antt =====
-- The reader of profiling blobs only moves on, inside the blob.
use foundationdb_rs.Prelude.{
  ℕ, zero, suc, ◌+◌, ◌≤◌, ◌≡◌, refl, ◌∙◌, Bool, true, false, ◌&&◌, Bool-cases, inl, inr, [], length,
  length-drop, drop, leb, if◌then◌else◌, ok, Result-cases, arith,
}
use foundationdb_rs.Profiling.Decode.{
  DecodeError, Reader, Reads, ◌>>=◌, pure, fail, offset, take_bytes, unsigned, i32, i64, bool,
  bytes, key_range, elements, vec, optional, header,
}

-- The position is inside the blob.
abbrev pub IsReader : Reader → Type 0
IsReader r = r.pos ≤ length r.buf

abbrev pub Moved : ℕ → Reader → Reader → Type 0
Moved n r r' = (r'.buf ≡ r.buf) × (r.pos + n ≤ r'.pos) × IsReader r'

-- What a reading that succeeds does to the reader: it moves on by this much or more.
pub record Advances {A : Type 0} (n : ℕ) (p : Reads A) : Type 0 where
  pub moves : (r : Reader) (a : A) (r' : Reader) → IsReader r → p r ≡ ok (a, r') → Moved n r r'

pub Advances-pure : {A : Type 0} (a : A) → Advances 0 (pure a)
Advances-pure a = record {
  moves = λ r x r' h e. let same : r ≡ r' = cc in rw (← same) (refl, omega arith, h);
}

pub Advances-fail : {A : Type 0} (n : ℕ) (e : DecodeError) → Advances n (fail {A = A} e)
Advances-fail n e = record { moves = λ r x r' h same. cc }

pub Advances-bind :
    {A B : Type 0} (n k : ℕ) (p : Reads A) (f : A → Reads B)
    → Advances n p
    → ((a : A) → Advances k (f a))
    → Advances (n + k) (p >>= f)
Advances-bind n k p f hp hf = record {
  moves = λ r b r' inside e. elim (Result-cases (p r)) [
    | inl ((a, r1), first) ↦
        let (buf, more, inside1) = hp.moves r a r1 inside first in
        let (buf', more', inside') = (hf a).moves r1 b r' inside1 (rw (first, ◌>>=◌) at e) in
        (buf' ∙ buf, omega arith, inside')
    | inr (error, first) ↦ (let no = rw (first, ◌>>=◌) at e in cc)
  ];
}

pub Advances-less : {A : Type 0} (n k : ℕ) (p : Reads A) → k ≤ n → Advances n p → Advances k p
Advances-less n k p h a = record {
  moves = λ r x r' inside e.
      let (buf, more, inside') = a.moves r x r' inside e in (buf, omega arith, inside');
}

pub Advances-if :
    {A : Type 0} (n : ℕ) (b : Bool) (p q : Reads A)
    → Advances n p
    → Advances n q
    → Advances n (if b then p else q)
Advances-if n true p q hp hq = hp
Advances-if n false p q hp hq = hq

-- A bind of which only the first part is known to move.
pub Advances-then :
    {A B : Type 0} (n : ℕ) (p : Reads A) (f : A → Reads B)
    → Advances n p
    → ((a : A) → Advances 0 (f a))
    → Advances n (p >>= f)
Advances-then n p f hp hf =
    Advances-less (n + 0) n (p >>= f) (omega arith) (Advances-bind n 0 p f hp hf)

pub Advances-offset : Advances 0 offset
Advances-offset = record {
  moves = λ r x r' h e. let same : r ≡ r' = cc in rw (← same) (refl, omega arith, h);
}

pub Advances-take_bytes : (n : ℕ) → Advances n (take_bytes n)
unfolding take_bytes
Advances-take_bytes n = record {
  moves = λ r x r' h e.
      elim (Bool-cases (leb r.pos (length r.buf) && leb n (length (drop r.pos r.buf)))) [
        | inl fits ↦
            let out = rw fits at e in
            let same : record r { pos = r.pos + n } ≡ r' = cc in
            let inside : r.pos + n ≤ length r.buf = ground (arith, length-drop r.pos r.buf) in
            rw (← same) (refl, omega arith, inside)
        | inr short ↦ (let no = rw short at e in cc)
      ];
}

pub Advances-unsigned : (n : ℕ) → Advances n (unsigned n)
unfolding unsigned
Advances-unsigned n = Advances-then n _ _ (Advances-take_bytes n) (λ bs. Advances-pure _)

pub Advances-i32 : Advances 4 i32
unfolding i32
Advances-i32 = Advances-then 4 _ _ (Advances-unsigned 4) (λ u. Advances-pure _)

pub Advances-i64 : Advances 0 i64
unfolding i64
Advances-i64 =
    Advances-less 8 0 i64 (omega arith)
      (Advances-then 8 _ _ (Advances-unsigned 8) (λ u. Advances-pure _))

-- Where it is only needed that the reader does not move back.
pub some_bytes : (n : ℕ) → Advances 0 (unsigned n)
some_bytes n = Advances-less n 0 (unsigned n) (omega arith) (Advances-unsigned n)

pub Advances-bool : Advances 0 bool
unfolding bool
Advances-bool = Advances-then 0 _ _ (some_bytes 1) (λ u. Advances-pure _)

pub Advances-bytes : Advances 0 bytes
unfolding bytes
Advances-bytes =
    Advances-then 0 _ _ (some_bytes 4)
      (λ len. Advances-less len 0 (take_bytes len) (omega arith) (Advances-take_bytes len))

pub Advances-key_range : Advances 0 key_range
unfolding key_range
Advances-key_range =
    Advances-then 0 _ _ Advances-bytes
      (λ b. Advances-then 0 _ _ Advances-bytes (λ e. Advances-pure _))

pub Advances-elements :
    {A : Type 0} (elem : Reads A) (count : ℕ) → Advances 0 elem → Advances 0 (elements elem count)
unfolding elements
Advances-elements elem zero h = Advances-pure []
Advances-elements elem (suc count) h =
    Advances-then 0 _ _ h
      (λ x. Advances-then 0 _ _ (Advances-elements elem count h) (λ xs. Advances-pure _))

pub Advances-vec : {A : Type 0} (elem : Reads A) → Advances 0 elem → Advances 0 (vec elem)
unfolding vec
Advances-vec elem h = Advances-then 0 _ _ (some_bytes 4) (λ count. Advances-elements elem count h)

pub Advances-optional : {A : Type 0} (elem : Reads A) → Advances 0 elem → Advances 0 (optional elem)
unfolding optional
Advances-optional elem h = Advances-then 0 _ _ Advances-bool (λ present.
    Advances-if 0 present _ _ (Advances-then 0 _ _ h (λ x. Advances-pure _)) (Advances-pure _))

pub Advances-header : Advances 0 header
unfolding header
Advances-header = Advances-then 0 _ _ (some_bytes 8) (λ t.
    Advances-then 0 _ _ Advances-bytes
      (λ d. Advances-then 0 _ _ (Advances-optional bytes Advances-bytes) (λ n. Advances-pure _)))
