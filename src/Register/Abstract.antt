-- ===== src/Register/Abstract.antt =====
-- The ranked register as an object with two operations, after the paper that
-- foundationdb/src/recipes/ranked_register names: what the operations in a transaction implement.
use foundationdb_rs.Prelude.{
  ℕ, ◌^◌, ◌≤◌, ◌<◌, Option, none, some, List, [], ◌∷◌, ◌||◌, ltb, leb, if◌then◌else◌, length, true,
  ◌≡◌, ok, arith,
}
use foundationdb_rs.Register.Operations.{
  RegisterState, ReadResult, WriteResult, committed, aborted, check_size,
}

abbrev pub bottom : RegisterState
bottom = record { max_read_rank = 0; max_write_rank = 0; value = none }

unfoldable pub ranked_read : RegisterState → ℕ → ReadResult × RegisterState
ranked_read st rank = (
  record { write_rank = st.max_write_rank; value = st.value },
  record st { max_read_rank = if ltb st.max_read_rank rank then rank else st.max_read_rank },
)

unfoldable pub ranked_write : RegisterState → ℕ → List ℕ → WriteResult × RegisterState
ranked_write st rank v =
    if ltb rank st.max_read_rank || leb rank st.max_write_rank
    then (aborted, st)
    else (committed, record st { max_write_rank = rank; value = some v })

-- A call of the register by some process
pub data Call : Type 0 where
  read_at : ℕ → Call
  write_at : ℕ → List ℕ → Call

-- What a call returns
pub data Answer : Type 0 where
  read_answer : ReadResult → Answer
  write_answer : WriteResult → Answer

unfoldable pub after : RegisterState → Call → RegisterState
unfolding ranked_read ranked_write
after st (read_at rank) = (ranked_read st rank).1
after st (write_at rank v) = (ranked_write st rank v).1

unfoldable pub answer : RegisterState → Call → Answer
unfolding ranked_read ranked_write
answer st (read_at rank) = read_answer (ranked_read st rank).0
answer st (write_at rank v) = write_answer (ranked_write st rank v).0

unfoldable pub after_all : RegisterState → List Call → RegisterState
unfolding after
after_all st [] = st
after_all st (c ∷ cs) = after_all (after st c) cs

unfoldable pub answers : RegisterState → List Call → List Answer
unfolding after answer
answers st [] = []
answers st (c ∷ cs) = answer st c ∷ answers (after st c) cs

-- The values that Rust's types can hold, a rank being a `u64` and a length at most `isize::MAX`; and
-- the register takes values of this size.
abbrev pub IsCall : Option ℕ → Call → Type 0
IsCall limit (read_at rank) = rank < 2 ^ 64
IsCall limit (write_at rank v) =
    (rank < 2 ^ 64) × ((length v < 2 ^ 63) × (check_size limit (length v) ≡ ok tt))

-- The call keeps writes of the rank out: a read of a higher rank, or a write of at least this rank.
abbrev pub Fences : Call → ℕ → Type 0
Fences (read_at rank) lower = lower < rank
Fences (write_at rank v) lower = lower ≤ rank

-- A write of the rank is aborted.
abbrev pub Blocks : RegisterState → ℕ → Type 0
Blocks st lower = (ltb lower st.max_read_rank || leb lower st.max_write_rank) ≡ true

after-Blocks :
    (st : RegisterState) (c : Call) (lower : ℕ) → Blocks st lower → Blocks (after st c) lower
unfolding after ranked_read ranked_write
after-Blocks st (read_at rank) lower h = ground arith
after-Blocks st (write_at rank v) lower h = ground arith

Fences-Blocks :
    (st : RegisterState) (c : Call) (lower : ℕ) → Fences c lower → Blocks (after st c) lower
unfolding after ranked_read ranked_write
Fences-Blocks st (read_at rank) lower h = ground arith
Fences-Blocks st (write_at rank v) lower h = ground arith

after_all-Blocks :
    (cs : List Call) (st : RegisterState) (lower : ℕ)
    → Blocks st lower
    → Blocks (after_all st cs) lower
unfolding after_all
after_all-Blocks [] st lower h = h
after_all-Blocks (c ∷ cs) st lower h =
    after_all-Blocks cs (after st c) lower (after-Blocks st c lower h)

-- A fence keeps lower ranks out whatever is called later.
pub Fences-after_all :
    (c : Call) (cs : List Call) (st : RegisterState) (lower : ℕ)
    → Fences c lower
    → Blocks (after_all st (c ∷ cs)) lower
unfolding after_all
Fences-after_all c cs st lower h =
    after_all-Blocks cs (after st c) lower (Fences-Blocks st c lower h)
