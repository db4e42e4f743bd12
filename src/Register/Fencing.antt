-- ===== src/Register/Fencing.antt =====
-- Any calls of a register in a transaction are those of the ranked register, and its fences hold.
use foundationdb_rs.Prelude.{
  ℕ, ◌≡◌, refl, Option, none, List, [], ◌∷◌, All, length, Result, ok, ◌>>=◌, arith,
}
use foundationdb_rs.Store.Ranges.{RangeStore}
use foundationdb_rs.Tuple.Bytes.{Memchr}
use foundationdb_rs.Tuple.Subspace.{Subspace, range}
use foundationdb_rs.Register.Operations.{
  RegisterState, RankedRegisterError, WriteResult, read, write, value, check_size, read_metadata,
  read_value, read_chunks,
}
use foundationdb_rs.Register.Keys.{state_place, values_begin, values_end, value_subspace-place}
use foundationdb_rs.Register.Abstract.{
  bottom, Call, read_at, write_at, Answer, read_answer, write_answer, after, after_all, answer,
  answers, IsCall, Fences, Fences-after_all,
}
use foundationdb_rs.Register.Refinement.{
  Holds, read-refines, write-refines, value-refines, write-Blocks,
}

module _ (m : Memchr) (db : RangeStore) (limit : Option ℕ) where
  unfoldable pub perform : db.Txn → Subspace → Call → Result RankedRegisterError (Answer × db.Txn)
  unfolding read write
  perform txn s (read_at rank) =
      read m db txn s rank >>= λ (result, txn'). ok (read_answer result, txn')
  perform txn s (write_at rank v) =
      write m db txn s rank v limit >>= λ (result, txn'). ok (write_answer result, txn')

  unfoldable pub perform_all :
      db.Txn → Subspace → List Call → Result RankedRegisterError (List Answer × db.Txn)
  unfolding perform
  perform_all txn s [] = ok ([], txn)
  perform_all txn s (c ∷ cs) = perform txn s c >>= λ (first, txn').
      perform_all txn' s cs >>= λ (others, txn''). ok (first ∷ others, txn'')

  -- Where neither metadata nor chunks are stored, the register is at the bottom.
  pub Holds-bottom :
      (txn : db.Txn) (s : Subspace)
      → db.get txn (state_place s) ≡ ok none
      → db.stream txn (values_begin s) (values_end s) ≡ ([], none)
      → Holds m db txn s bottom
  unfolding read_metadata read_value read_chunks range
  Holds-bottom txn s no_state no_rows =
      let (values, made, prefix) = value_subspace-place m s in
      record {
        maybe = none;
        rows = [];
        held = no_rows;
        metadata = rw no_state refl;
        ranks = refl;
        shown = rw (made, prefix, no_rows) refl;
        small = (omega arith, omega arith);
      }

  perform-refines :
      (txn : db.Txn) (s : Subspace) (st : RegisterState) (c : Call)
      → Holds m db txn s st
      → IsCall limit c
      → (txn' : db.Txn) × (perform txn s c ≡ ok (answer st c, txn'))
        × Holds m db txn' s (after st c)
  unfolding perform answer after
  perform-refines txn s st (read_at rank) h small =
      let (txn', done, held) = read-refines m db txn s st rank h small in (txn', rw done refl, held)
  perform-refines txn s st (write_at rank v) h (small, (short, fits)) =
      let (txn', done, held) = write-refines m db txn s st rank v limit h small short fits in
      (txn', rw done refl, held)

  perform_all-refines :
      (cs : List Call) (txn : db.Txn) (s : Subspace) (st : RegisterState)
      → Holds m db txn s st
      → All (IsCall limit) cs
      → (txn' : db.Txn) × (perform_all txn s cs ≡ ok (answers st cs, txn'))
        × Holds m db txn' s (after_all st cs)
  unfolding perform_all answers after_all
  perform_all-refines [] txn s st h are = (txn, refl, h)
  perform_all-refines (c ∷ cs) txn s st h are =
      let (first, done, held) = perform-refines txn s st c h are.0 in
      let (txn', others, held') = perform_all-refines cs first s (after st c) held are.1 in
      (txn', rw (done, others) refl, held')

  -- From a transaction that holds a register, any sequence of reads and writes succeeds with the
  -- answers of the ranked register, and the value that is read afterwards, without a rank, is that of
  -- the ranked register after these calls: chunks and metadata are never taken for invalid.
  pub perform_all-answers :
      (txn : db.Txn) (s : Subspace) (st : RegisterState) (cs : List Call)
      → Holds m db txn s st
      → All (IsCall limit) cs
      → (txn' : db.Txn) × (perform_all txn s cs ≡ ok (answers st cs, txn'))
        × (value m db txn' s ≡ ok (after_all st cs).value)
  perform_all-answers txn s st cs h are =
      let (txn', done, held) = perform_all-refines cs txn s st h are in
      (txn', done, value-refines m db txn' s (after_all st cs) held)

  -- After a read of a rank, or a write of it, whether committed or not, and any calls after that, a
  -- write of a lower rank is aborted, and after a write also one of the same rank; an aborted write
  -- leaves the transaction as it was.
  pub perform_all-Fences :
      (txn : db.Txn) (s : Subspace) (st : RegisterState) (c : Call) (cs : List Call) (lower : ℕ)
      (v : List ℕ)
      → Holds m db txn s st
      → All (IsCall limit) (c ∷ cs)
      → Fences c lower
      → check_size limit (length v) ≡ ok tt
      → (txn' : db.Txn) × (perform_all txn s (c ∷ cs) ≡ ok (answers st (c ∷ cs), txn'))
        × (write m db txn' s lower v limit ≡ ok (WriteResult.aborted, txn'))
  perform_all-Fences txn s st c cs lower v h are fences fits =
      let (txn', done, held) = perform_all-refines (c ∷ cs) txn s st h are in
      (
        txn',
        done,
        write-Blocks m db txn' s (after_all st (c ∷ cs)) lower v limit held
            (Fences-after_all c cs st lower fences) fits,
      )
