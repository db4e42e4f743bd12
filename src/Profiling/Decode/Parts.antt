-- ===== src/Profiling/Decode/Parts.antt =====
-- What the parts of a profiling blob are read as: numbers, flags and byte strings.
use foundationdb_rs.Prelude.{
  ℕ, zero, suc, ◌+◌, ◌-◌, ◌*◌, ◌/◌, ◌^◌, ◌≤◌, ◌<◌, ◌≡◌, refl, ap, sym, ◌∙◌, Bool, true, false, not,
  List, [], ◌++◌, append_assoc, length, length-append, length-drop, drop, drop-drop, take-append_eq,
  drop-append_eq, le→leb, ◌==◌, ok, ℤ, pos, negsuc, arith, pow_byte,
}
use foundationdb_rs.Tuple.Subspace.{le_bytes}
use foundationdb_rs.Tuple.Integers.Signed.{IsSigned}
use foundationdb_rs.Profiling.Decode.{
  Reader, Reads, ◌>>=◌, pure, offset, take_bytes, from_le_bytes, of_bits, unsigned, i32, i64, bool,
  bytes,
}
use foundationdb_rs.Profiling.Decode.Advances.{IsReader}
use foundationdb_rs.Profiling.Decode.Wire
use foundationdb_rs.Profiling.Decode.Wire.{to_bits}

-- What is left of the blob
abbrev pub At : Reader → List ℕ → Type 0
At r xs = IsReader r × (drop r.pos r.buf ≡ xs)

-- The bytes are read as the value, and nothing behind them.
pub record Parses {A : Type 0} (p : Reads A) (x : A) (bs : List ℕ) : Type 0 where
  pub reads :
      (r : Reader) (rest : List ℕ)
      → At r (bs ++ rest)
      → (r' : Reader) × (p r ≡ ok (x, r')) × At r' rest

pub Parses-pure : {A : Type 0} (x : A) → Parses (pure x) x []
Parses-pure x = record { reads = λ r rest at. (r, refl, at) }

pub Parses-bind :
    {A B : Type 0} (p : Reads A) (f : A → Reads B) (x : A) (y : B) (bs cs : List ℕ)
    → Parses p x bs
    → Parses (f x) y cs
    → Parses (p >>= f) y (bs ++ cs)
Parses-bind p f x y bs cs hp hf = record {
  reads = λ r rest at.
      let (r1, first, at1) = hp.reads r (cs ++ rest) (rw (append_assoc bs cs rest) at at) in
      let (r2, second, at2) = hf.reads r1 rest at1 in (r2, rw (first, ◌>>=◌) second, at2);
}

-- The last reading of a chain
pub Parses-last :
    {A B : Type 0} (p : Reads A) (g : A → B) (x : A) (bs : List ℕ)
    → Parses p x bs
    → Parses (p >>= λ a. pure (g a)) (g x) bs
Parses-last p g x bs hp = record {
  reads =
      λ r rest at. let (r1, first, at1) = hp.reads r rest at in (r1, rw (first, ◌>>=◌) refl, at1);
}

-- The position, which no byte stands for
pub Parses-offset :
    {B : Type 0} (f : ℕ → Reads B) (y : B) (bs : List ℕ)
    → ((at : ℕ) → Parses (f at) y bs)
    → Parses (offset >>= f) y bs
Parses-offset f y bs h = record { reads = λ r rest at. (h r.pos).reads r rest at }

pub Parses-take_bytes : (n : ℕ) (v : List ℕ) → n ≡ length v → Parses (take_bytes n) v v
unfolding take_bytes
Parses-take_bytes n v size = record {
  reads = λ r rest (inside, here).
      let left : length (v ++ rest) ≡ length r.buf - r.pos =
        rw (← here) (length-drop r.pos r.buf) in
      let fits : n ≤ length r.buf - r.pos = omega (arith, left, length-append v rest) in
      (
        record r { pos = r.pos + n },
        rw
            (
              le→leb r.pos (length r.buf) inside,
              here,
              le→leb n (length (v ++ rest)) (omega arith),
              take-append_eq n v rest size,
            )
            refl,
        (omega arith, drop-drop r.pos n r.buf ∙ rw (here, drop-append_eq n v rest size) refl),
      );
}

pub length-le_bytes : (n u : ℕ) → length (le_bytes n u) ≡ n
length-le_bytes zero u = refl
length-le_bytes (suc n) u = ap suc (length-le_bytes n (u / 256))

from_le_bytes-le_bytes : (n u : ℕ) → u < 2 ^ (8 * n) → from_le_bytes (le_bytes n u) ≡ u
from_le_bytes-le_bytes zero u h = omega arith
from_le_bytes-le_bytes (suc n) u h =
    let small : u < 256 * 2 ^ (8 * n) = rw (pow_byte n) at h in
    rw (from_le_bytes-le_bytes n (u / 256) (omega arith)) (omega arith)

pub Parses-unsigned : (n u : ℕ) → u < 2 ^ (8 * n) → Parses (unsigned n) u (le_bytes n u)
unfolding unsigned
Parses-unsigned n u h =
    let whole = from_le_bytes-le_bytes n u h in
    let read =
      Parses-last (take_bytes n) from_le_bytes (le_bytes n u) (le_bytes n u)
        (Parses-take_bytes n (le_bytes n u) (sym (length-le_bytes n u))) in
    rw whole at read

of_bits-to_bits32 :
    (i : ℤ) → IsSigned 32 i → (of_bits 32 (to_bits 32 i) ≡ i) × (to_bits 32 i < 2 ^ 32)
of_bits-to_bits32 (pos n) h = (ground arith, omega arith)
of_bits-to_bits32 (negsuc n) h = (ground arith, omega arith)

of_bits-to_bits64 :
    (i : ℤ) → IsSigned 64 i → (of_bits 64 (to_bits 64 i) ≡ i) × (to_bits 64 i < 2 ^ 64)
of_bits-to_bits64 (pos n) h = (ground arith, omega arith)
of_bits-to_bits64 (negsuc n) h = (ground arith, omega arith)

pub Parses-i32 : (i : ℤ) → IsSigned 32 i → Parses i32 i (Wire.wire_i32 i)
unfolding i32
Parses-i32 i h =
    let (back, small) = of_bits-to_bits32 i h in
    rw back at (
      Parses-last (unsigned 4) (of_bits 32) (to_bits 32 i) (Wire.wire_i32 i)
        (Parses-unsigned 4 (to_bits 32 i) small))

pub Parses-i64 : (i : ℤ) → IsSigned 64 i → Parses i64 i (Wire.wire_i64 i)
unfolding i64
Parses-i64 i h =
    let (back, small) = of_bits-to_bits64 i h in
    rw back at (
      Parses-last (unsigned 8) (of_bits 64) (to_bits 64 i) (Wire.wire_i64 i)
        (Parses-unsigned 8 (to_bits 64 i) small))

pub Parses-bool : (b : Bool) → Parses bool b (Wire.wire_bool b)
unfolding bool
Parses-bool true =
    Parses-last (unsigned 1) (λ b. not (b == 0)) 1 _ (Parses-unsigned 1 1 (omega arith))
Parses-bool false =
    Parses-last (unsigned 1) (λ b. not (b == 0)) 0 _ (Parses-unsigned 1 0 (omega arith))

pub Parses-bytes : (v : List ℕ) → Wire.IsText v → Parses bytes v (Wire.wire_text v)
unfolding bytes
Parses-bytes v h =
    Parses-bind (unsigned 4) take_bytes (length v) v _ _
      (Parses-unsigned 4 (length v) (omega arith)) (Parses-take_bytes (length v) v refl)
