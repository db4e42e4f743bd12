-- ===== src/Profiling/Reader/Tests.antt =====
-- The theorems on the pages of the profiling keyspace at concrete inputs.
use foundationdb_rs.Prelude.{
  ℕ, ◌≡◌, ◌≢◌, refl, arith, true, false, none, some, List, [], ◌∷◌, ◌++◌, replicate, ok,
}
use foundationdb_rs.Tuple.Words.{be_bytes, from_be_bytes}
use foundationdb_rs.Tuple.Subspace.{starts_with}
use foundationdb_rs.Tuple.Compare.Total.{before}
use foundationdb_rs.Profiling.Reader.{
  Output, Assembler, ChunkKey, ProfileScanner, Item, row, profile_prefix, beginning, new, parse,
  push, range, read_rows, read_page, settle, finish, find, process, process_first,
}
use foundationdb_rs.Profiling.Reader.Settle.{Resumes}
use foundationdb_rs.Profiling.Reader.Pages.{read_rows-Resumes, read_page-forward}
use foundationdb_rs.Profiling.Reader.Assemble.{push_all, Transaction, Chunks}
use foundationdb_rs.Profiling.Reader.Reassembly.{complete_output, push_all-Transaction}

-- The key of a chunk, with the bytes of the stamp and of the id all the same
abbrev key_of : ℕ → ℕ → ℕ → ℕ → List ℕ
key_of stamp id chunk total =
    profile_prefix
    ++ (replicate 10 stamp
        ++ (0x2f ∷ (replicate 16 id ++ (0x2f ∷ (be_bytes 4 chunk ++ be_bytes 4 total)))))

abbrev chunk_of : ℕ → ℕ → ℕ → ℕ → ChunkKey
chunk_of stamp id chunk total = record {
  versionstamp = replicate 10 stamp;
  id = replicate 16 id;
  chunk = chunk;
  total = total;
}

parse-first : parse (key_of 1 5 1 2) ≡ some (chunk_of 1 5 1 2)
unfolding parse be_bytes starts_with from_be_bytes
parse-first = refl

parse-between : parse (key_of 1 6 1 1) ≡ some (chunk_of 1 6 1 1)
unfolding parse be_bytes starts_with from_be_bytes
parse-between = refl

parse-last : parse (key_of 2 5 2 2) ≡ some (chunk_of 2 5 2 2)
unfolding parse be_bytes starts_with from_be_bytes
parse-last = refl

apart : replicate {A = ℕ} 16 6 ≢ replicate 16 5
apart e = cc

-- Two chunks of a transaction, with the transaction 6 between them
some_rows :
    Transaction
      (replicate 16 5)
      (replicate 10 1)
      (key_of 1 5 1 2)
      ((key_of 1 5 1 2, 10 ∷ []) ∷ (key_of 1 6 1 1, 11 ∷ []) ∷ (key_of 2 5 2 2, 12 ∷ []) ∷ [])
      (10 ∷ 12 ∷ [])
      (key_of 2 5 2 2)
some_rows =
    Transaction.several (key_of 1 5 1 2) (10 ∷ []) (12 ∷ []) (key_of 2 5 2 2)
      ((key_of 1 6 1 1, 11 ∷ []) ∷ (key_of 2 5 2 2, 12 ∷ []) ∷ []) (chunk_of 1 5 1 2) parse-first
      refl refl (omega arith) (omega arith)
      (Chunks.other_row 2 (replicate 10 1) (key_of 1 6 1 1) (11 ∷ []) (12 ∷ []) (key_of 2 5 2 2)
        ((key_of 2 5 2 2, 12 ∷ []) ∷ []) (chunk_of 1 6 1 1) parse-between apart
        (Chunks.last_row (replicate 10 1) (key_of 2 5 2 2) (12 ∷ []) (chunk_of 2 5 2 2) parse-last
          refl refl refl refl))

push_all-Transaction_example :
    (earlier : List Output) × ((push_all (new beginning) (
        (key_of 1 5 1 2, 10 ∷ [])
        ∷ (key_of 1 6 1 1, 11 ∷ [])
        ∷ (key_of 2 5 2 2, 12 ∷ [])
        ∷ [])).outputs
      ≡ earlier
        ++ complete_output
            (key_of 1 5 1 2)
            (key_of 2 5 2 2)
            (replicate 10 1)
            (replicate 16 5)
            (10 ∷ 12 ∷ [])
          ∷ [])
unfolding new find
push_all-Transaction_example =
    push_all-Transaction (replicate 16 5) (replicate 10 1) (key_of 1 5 1 2)
      ((key_of 1 5 1 2, 10 ∷ []) ∷ (key_of 1 6 1 1, 11 ∷ []) ∷ (key_of 2 5 2 2, 12 ∷ []) ∷ [])
      (10 ∷ 12 ∷ []) (key_of 2 5 2 2) (new beginning) some_rows refl

abbrev scanner : ProfileScanner
scanner = record { end_version = none }

-- A whole transaction and the first chunk of another one, where the page is stopped
abbrev items : List Item
items = row (key_of 1 6 1 1) (11 ∷ []) false ∷ row (key_of 2 5 1 2) (10 ∷ []) true ∷ []

abbrev stopped_at : Assembler
stopped_at = push (push (new beginning) (key_of 1 6 1 1) (11 ∷ [])) (key_of 2 5 1 2) (10 ∷ [])

items-read : read_rows (range scanner beginning) (new beginning) items ≡ ok (stopped_at, true)
unfolding read_rows range beginning new push be_bytes parse starts_with process find process_first
    from_be_bytes
items-read = refl

read_rows-Resumes_example :
    Resumes stopped_at true (settle stopped_at true).0 (settle stopped_at true).1
read_rows-Resumes_example = read_rows-Resumes scanner beginning items stopped_at true items-read

items-page : read_page scanner beginning items ≡ ok (finish stopped_at true)
unfolding read_page
items-page = rw (items-read, read_page) refl

read_page-forward_example :
    (before ((finish stopped_at true).next).key (beginning).key ≡ false)
    × ((finish stopped_at true).exhausted ≡ false
        → before (beginning).key ((finish stopped_at true).next).key ≡ true)
read_page-forward_example =
    read_page-forward scanner beginning items (finish stopped_at true) items-page
