-- ===== src/Profiling/Reader/Assemble.antt =====
-- How the chunks of one transaction, with other rows between them, are put together.
use foundationdb_rs.Prelude.{
  ℕ, ◌≡◌, ◌<◌, ◌≢◌, refl, ◌∙◌, false, if◌then◌else◌, ◌&&◌, ◌==◌, ltb, leb, ◌+◌, ◌%◌, ◌^◌, Option,
  none, some, List, [], ◌∷◌, ◌++◌, inl, inr, Bool-cases, Option-cases,
}
use foundationdb_rs.Tuple.Versionstamp.{same_bytes, same_bytes-eq, same_bytes_self}
use foundationdb_rs.Tuple.Compare.Total.{before}
use foundationdb_rs.Profiling.Reader.{
  Partial, Assembler, ChunkKey, IdMap, find, remove, insert, report_broken, process_first,
  continue_partial, continues, process, parse, push,
}

abbrev pub Row : Type 0
Row = List ℕ × List ℕ

unfoldable pub push_all : Assembler → List Row → Assembler
push_all a [] = a
push_all a ((key, value) ∷ rows) = push_all (push a key value) rows

-- The rows that hold the chunks from a number on, up to the last, of a transaction whose chunk before
-- has a versionstamp; what they hold together; and the key of the last. Other rows may be in between.
pub data Chunks (id : List ℕ) (total : ℕ) : ℕ → List ℕ → List Row → List ℕ → List ℕ → Type 0 where
  last_row :
      (stamp key value : List ℕ) (p : ChunkKey)
      → parse key ≡ some p
      → p.id ≡ id
      → p.total ≡ total
      → p.chunk ≡ total
      → before p.versionstamp stamp ≡ false
      → Chunks id total total stamp ((key, value) ∷ []) value key
  next_row :
      (n : ℕ) (stamp key value rest end : List ℕ) (rows : List Row) (p : ChunkKey)
      → parse key ≡ some p
      → p.id ≡ id
      → p.total ≡ total
      → p.chunk ≡ n
      → before p.versionstamp stamp ≡ false
      → n < total
      → Chunks id total (n + 1) p.versionstamp rows rest end
      → Chunks id total n stamp ((key, value) ∷ rows) (value ++ rest) end
  other_row :
      (n : ℕ) (stamp key value blob end : List ℕ) (rows : List Row) (p : ChunkKey)
      → parse key ≡ some p
      → p.id ≢ id
      → Chunks id total n stamp rows blob end
      → Chunks id total n stamp ((key, value) ∷ rows) blob end
  odd_row :
      (n : ℕ) (stamp key value blob end : List ℕ) (rows : List Row)
      → parse key ≡ none
      → Chunks id total n stamp rows blob end
      → Chunks id total n stamp ((key, value) ∷ rows) blob end

-- All rows of a transaction, from its first chunk on
pub data Transaction (id : List ℕ) : List ℕ → List ℕ → List Row → List ℕ → List ℕ → Type 0 where
  single :
      (key value : List ℕ) (p : ChunkKey)
      → parse key ≡ some p
      → p.id ≡ id
      → p.chunk ≡ 1
      → p.total ≡ 1
      → Transaction id p.versionstamp key ((key, value) ∷ []) value key
  several :
      (key value rest end : List ℕ) (rows : List Row) (p : ChunkKey)
      → parse key ≡ some p
      → p.id ≡ id
      → p.chunk ≡ 1
      → 1 < p.total
      → p.total < 2 ^ 32
      → Chunks id p.total 2 p.versionstamp rows rest end
      → Transaction id p.versionstamp key ((key, value) ∷ rows) (value ++ rest) end

same_bytes_other : (a b : List ℕ) → a ≢ b → same_bytes a b ≡ false
same_bytes_other a b h = elim (Bool-cases (same_bytes a b)) [
  | inl same ↦ elim (h (same_bytes-eq a b same)) [ ]
  | inr other ↦ other
]

module _ {A : Type 0} where
  pub find-remove :
      (id away : List ℕ) (entries : IdMap A)
      → away ≢ id
      → find id (remove away entries) ≡ find id entries
  unfolding find remove
  find-remove id away [] apart = refl
  find-remove id away ((k, x) ∷ rest) apart = elim (Bool-cases (same_bytes k away)) [
    | inl gone ↦
        let same = same_bytes-eq k away gone in
        let apart_here : same_bytes k id ≡ false = rw same (same_bytes_other away id apart) in
        rw (gone, apart_here) (find-remove id away rest apart)
    | inr left ↦ elim (Bool-cases (same_bytes k id)) [
      | inl here ↦ rw (left, here) refl
      | inr else_id ↦ rw (left, else_id) (find-remove id away rest apart)
    ]
  ]

  find-insert :
      (id away : List ℕ) (x : A) (entries : IdMap A)
      → away ≢ id
      → find id (insert away x entries) ≡ find id entries
  unfolding find insert
  find-insert id away x entries apart =
      rw (same_bytes_other away id apart) (find-remove id away entries apart)

  pub find-insert_same :
      (id : List ℕ) (x : A) (entries : IdMap A) → find id (insert id x entries) ≡ some x
  unfolding find insert
  find-insert_same id x entries = rw (same_bytes_self id) refl

-- What is pending for a transaction
abbrev pub pending_of : List ℕ → Assembler → Option Partial
pending_of id a = find id a.partials

report_broken-pending :
    (a : Assembler) (id first stamp away key : List ℕ)
    → pending_of id (report_broken a first stamp away key) ≡ pending_of id a
unfolding report_broken
report_broken-pending a id first stamp away key = elim (Option-cases (find away a.broken)) [
  | inl absent ↦ rw (absent, report_broken) refl
  | inr (i, there) ↦ rw (there, report_broken) refl
]

process_first-pending :
    (a : Assembler) (id : List ℕ) (parsed : ChunkKey) (key value : List ℕ)
    → parsed.id ≢ id
    → pending_of id (process_first a parsed key value) ≡ pending_of id a
unfolding process_first
process_first-pending a id parsed key value apart =
    let a' =
      if parsed.chunk == 1 && leb 1 parsed.total
      then record a { broken = remove parsed.id a.broken }
      else a in
    let same : pending_of id a' ≡ pending_of id a =
      elim (Bool-cases (parsed.chunk == 1 && leb 1 parsed.total)) [
        | inl fresh ↦ rw fresh refl
        | inr old ↦ rw old refl
      ] in
    elim (Bool-cases (parsed.chunk == 1 && parsed.total == 1)) [
      | inl single_chunk ↦ rw single_chunk same
      | inr more ↦ elim (Bool-cases (parsed.chunk == 1 && ltb 1 parsed.total)) [
        | inl begins ↦
            rw (more, begins)
              (find-insert id parsed.id
                  (record {
                    first_key = key;
                    id = parsed.id;
                    versionstamp = parsed.versionstamp;
                    last_versionstamp = parsed.versionstamp;
                    total = parsed.total;
                    next_chunk = 2;
                    blob = value;
                  })
                  a'.partials apart
                ∙ same)
        | inr out ↦
            rw (more, out)
              (report_broken-pending a' id key parsed.versionstamp parsed.id key ∙ same)
      ]
    ]

continue_partial-pending :
    (a : Assembler) (id : List ℕ) (p : Partial) (parsed : ChunkKey) (key value : List ℕ)
    → parsed.id ≢ id
    → pending_of id (continue_partial a p parsed key value) ≡ pending_of id a
unfolding continue_partial
continue_partial-pending a id p parsed key value apart =
    elim (Bool-cases (parsed.chunk == p.total)) [
      | inl ends ↦ rw ends refl
      | inr more ↦ rw more (
          find-insert id parsed.id
            (record p {
              blob = p.blob ++ value;
              next_chunk = (p.next_chunk + 1) % 2 ^ 32;
              last_versionstamp = parsed.versionstamp;
            })
            a.partials apart)
    ]

-- The row of another transaction leaves the pending one as it is.
pub push-other :
    (a : Assembler) (id key value : List ℕ) (parsed : ChunkKey)
    → parse key ≡ some parsed
    → parsed.id ≢ id
    → pending_of id (push a key value) ≡ pending_of id a
unfolding push process
push-other a id key value parsed e apart =
    let seen = record a { last_key = some key } in
    elim (Option-cases (find parsed.id a.partials)) [
      | inl absent ↦
          rw (e, push, absent, process) (process_first-pending seen id parsed key value apart)
      | inr (p, there) ↦
          let taken = record seen { partials = remove parsed.id a.partials } in
          let left : pending_of id taken ≡ pending_of id a =
            find-remove id parsed.id a.partials apart in
          elim (Bool-cases (continues parsed p)) [
            | inl next ↦
                rw (e, push, there, next, process)
                  (continue_partial-pending taken id p parsed key value apart ∙ left)
            | inr breaks ↦
                rw (e, push, there, breaks, process)
                  (process_first-pending
                      (report_broken taken p.first_key p.versionstamp parsed.id key) id parsed key
                      value apart
                    ∙ report_broken-pending taken id p.first_key p.versionstamp parsed.id key
                    ∙ left)
          ]
    ]
