-- ===== src/Register/Tests.antt =====
-- The theorems on the register at concrete inputs.
use foundationdb_rs.Prelude.{ℕ, ◌^◌, ◌<◌, ◌≡◌, ◌⊎◌, ◌↔◌, refl, arith, List, [], ◌∷◌, none, some, ok}
use foundationdb_rs.Register.{new_rank, rank_process, rank_sequence}
use foundationdb_rs.Register.Order.{new_rank_lem}
use foundationdb_rs.Store.InMemory.{in_memory, empty, get-empty, stream-empty}
use foundationdb_rs.Tuple.Bytes.{Memchr, positions}
use foundationdb_rs.Tuple.Subspace.{all}
use foundationdb_rs.Register.Operations.{committed, aborted, write, value}
use foundationdb_rs.Register.Keys.{state_place, values_begin, values_end}
use foundationdb_rs.Register.Abstract.{
  bottom, Call, read_at, write_at, read_answer, write_answer, after_all, answers, answer,
}
use foundationdb_rs.Register.Refinement.{Holds}
use foundationdb_rs.Register.Fencing.{
  Holds-bottom, perform_all, perform_all-answers, perform_all-Fences,
}

-- The process 5 with the sequence 1
small_rank : new_rank 5 1 ≡ 0x1_0000_0005
unfolding new_rank
small_rank = refl

new_rank_lem_example :
    (new_rank 5 1 < 2 ^ 64)
    × (rank_process (new_rank 5 1) ≡ 5)
    × (rank_sequence (new_rank 5 1) ≡ 1)
    × ((new_rank 5 1 < new_rank 3 2) ↔ ((1 < 2) ⊎ ((◌≡◌ {A = ℕ} 1 2) × (5 < 3))))
new_rank_lem_example = new_rank_lem 5 1 3 2 (omega arith) (omega arith) (omega arith) (omega arith)

abbrev memchr : Memchr
memchr = record { iter = λ n v. positions n 0 v; iter_positions = λ n v. refl }

-- A read of the rank 5, its write, and the write of an older leader
abbrev calls : List Call
calls = read_at 5 ∷ write_at 5 (1 ∷ 2 ∷ []) ∷ write_at 4 (3 ∷ []) ∷ []

empty-bottom : Holds memchr in_memory empty all bottom
empty-bottom =
    Holds-bottom memchr in_memory none empty all (get-empty (state_place all))
      (stream-empty (values_begin all) (values_end all))

calls-answers :
    answers bottom calls
    ≡ read_answer (record { write_rank = 0; value = none })
      ∷ write_answer committed
      ∷ write_answer aborted
      ∷ []
unfolding answers answer
calls-answers = refl

perform_all-answers_example :
    (txn' : in_memory.Txn) × (perform_all memchr in_memory none empty all calls
      ≡ ok (answers bottom calls, txn'))
    × (value memchr in_memory txn' all ≡ ok (some (1 ∷ 2 ∷ [])))
unfolding after_all
perform_all-answers_example =
    perform_all-answers memchr in_memory none empty all bottom calls empty-bottom
      (omega arith, ((omega arith, (omega arith, refl)), ((omega arith, (omega arith, refl)), tt)))

perform_all-Fences_example :
    (txn' : in_memory.Txn) × (perform_all memchr in_memory none empty all calls
      ≡ ok (answers bottom calls, txn'))
    × (write memchr in_memory txn' all 4 (9 ∷ []) none ≡ ok (aborted, txn'))
perform_all-Fences_example =
    perform_all-Fences memchr in_memory none empty all bottom (read_at 5)
      (write_at 5 (1 ∷ 2 ∷ []) ∷ write_at 4 (3 ∷ []) ∷ []) 4 (9 ∷ []) empty-bottom
      (omega arith, ((omega arith, (omega arith, refl)), ((omega arith, (omega arith, refl)), tt)))
      (omega arith) refl
