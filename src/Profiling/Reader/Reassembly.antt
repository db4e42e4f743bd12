-- ===== src/Profiling/Reader/Reassembly.antt =====
-- A transaction is put together from its chunks, whatever rows of others are between them.
use foundationdb_rs.Prelude.{
  ℕ, ◌≡◌, ◌<◌, refl, ap, ◌∙◌, subst, arith, true, false, if◌then◌else◌, ◌&&◌, ◌==◌, ltb, leb, ◌+◌,
  ◌%◌, ◌^◌, none, some, List, [], ◌∷◌, ◌++◌, append_assoc,
}
use foundationdb_rs.Tuple.Compare.Total.{before}
use foundationdb_rs.Profiling.Reader.{
  Output, Partial, Assembler, Assembled, ChunkKey, remove, process_first, continue_partial,
  continues, process, parse, push,
}
use foundationdb_rs.Profiling.Reader.Assemble.{
  Row, push_all, Chunks, last_row, next_row, other_row, odd_row, Transaction, single, several,
  pending_of, push-other, find-insert_same,
}

abbrev pub complete_output : List ℕ → List ℕ → List ℕ → List ℕ → List ℕ → Output
complete_output first end stamp id blob = record {
  first_key = first;
  last_key = end;
  assembled = Assembled.complete stamp id blob;
}

-- A partial transaction of which some chunks were read, the last of them with a versionstamp
record Awaits (total n : ℕ) (stamp : List ℕ) (p : Partial) : Type 0 where
  total_is : p.total ≡ total
  next_is : p.next_chunk ≡ n
  stamp_is : p.last_versionstamp ≡ stamp

continues-next :
    (total n : ℕ) (stamp : List ℕ) (p : Partial) (c : ChunkKey)
    → Awaits total n stamp p
    → c.total ≡ total
    → c.chunk ≡ n
    → before c.versionstamp stamp ≡ false
    → continues c p ≡ true
continues-next total n stamp p c h same_total at behind =
    rw (h.total_is, h.next_is, h.stamp_is, same_total, at, behind) (grind arith)

-- The row with the next chunk
push-next :
    (a : Assembler) (key value : List ℕ) (c : ChunkKey) (p : Partial)
    → parse key ≡ some c
    → pending_of c.id a ≡ some p
    → continues c p ≡ true
    → push a key value
      ≡ continue_partial
          (record a { last_key = some key; partials = remove c.id a.partials })
          p
          c
          key
          value
unfolding push process
push-next a key value c p e there next = rw (e, push, there, next, process) refl

push-odd :
    (a : Assembler) (id key value : List ℕ)
    → parse key ≡ none
    → pending_of id (push a key value) ≡ pending_of id a
unfolding push
push-odd a id key value e = rw (e, push) refl

-- The rest of the chunks
push_all-Chunks :
    (id : List ℕ) (total n : ℕ) (stamp : List ℕ) (rows : List Row) (blob end : List ℕ)
    (a : Assembler) (p : Partial)
    → total < 2 ^ 32
    → Chunks id total n stamp rows blob end
    → pending_of id a ≡ some p
    → Awaits total n stamp p
    → (earlier : List Output) × ((push_all a rows).outputs
        ≡ earlier ++ complete_output p.first_key end p.versionstamp id (p.blob ++ blob) ∷ [])
unfolding push_all continue_partial
push_all-Chunks id total _ _ _ _ _ a p small
      (last_row stamp key value c e same same_total at behind) there h =
    let next = continues-next total total stamp p c h same_total at behind in
    let is_last : (c.chunk == p.total) ≡ true = rw (at, h.total_is) (grind arith) in
    let pushed = push-next a key value c p e (rw same there) next in
    (a.outputs, rw (pushed, continue_partial, is_last, same) refl)
push_all-Chunks id total _ _ _ _ _ a p small
      (next_row n stamp key value rest end rows c e same same_total at behind below chunks) there
      h =
    let next = continues-next total n stamp p c h same_total at behind in
    let not_last : (c.chunk == p.total) ≡ false = rw (at, h.total_is) (grind arith) in
    let pushed = push-next a key value c p e (rw same there) next in
    let p' = record p {
      blob = p.blob ++ value;
      next_chunk = (p.next_chunk + 1) % 2 ^ 32;
      last_versionstamp = c.versionstamp;
    } in
    let b = push a key value in
    let there' : pending_of id b ≡ some p' =
      rw (pushed, continue_partial, not_last, same)
        (find-insert_same id p' (remove id a.partials)) in
    let number = h.next_is in
    let counted : (p.next_chunk + 1) % 2 ^ 32 ≡ n + 1 = omega arith in
    let (earlier, done) =
      push_all-Chunks id total (n + 1) c.versionstamp rows rest end b p' small chunks there'
        (record { total_is = h.total_is; next_is = counted; stamp_is = refl }) in
    (earlier, rw (← append_assoc p.blob value rest) done)
push_all-Chunks id total _ _ _ _ _ a p small
      (other_row n stamp key value blob end rows c e apart chunks) there h =
    push_all-Chunks id total n stamp rows blob end (push a key value) p small chunks
      (push-other a id key value c e apart ∙ there) h
push_all-Chunks id total _ _ _ _ _ a p small (odd_row n stamp key value blob end rows e chunks)
      there h =
    push_all-Chunks id total n stamp rows blob end (push a key value) p small chunks
      (push-odd a id key value e ∙ there) h

-- The row of a first chunk where nothing is pending
push-first :
    (a : Assembler) (key value : List ℕ) (c : ChunkKey)
    → parse key ≡ some c
    → pending_of c.id a ≡ none
    → push a key value ≡ process_first (record a { last_key = some key }) c key value
unfolding push process
push-first a key value c e absent = rw (e, push, absent, process) refl

abbrev opened : Assembler → List ℕ → ChunkKey → Assembler
opened a key c =
    let seen = record a { last_key = some key } in
    if c.chunk == 1 && leb 1 c.total then record seen { broken = remove c.id a.broken } else seen

process_first-single :
    (a : Assembler) (key value : List ℕ) (c : ChunkKey)
    → c.chunk ≡ 1
    → c.total ≡ 1
    → (process_first (record a { last_key = some key }) c key value).outputs
      ≡ (opened a key c).outputs ++ complete_output key key c.versionstamp c.id value ∷ []
unfolding process_first
process_first-single a key value c first alone =
    let taken : (c.chunk == 1 && c.total == 1) ≡ true = rw (first, alone) refl in rw taken refl

abbrev begun_partial : List ℕ → List ℕ → ChunkKey → Partial
begun_partial key value c = record {
  first_key = key;
  id = c.id;
  versionstamp = c.versionstamp;
  last_versionstamp = c.versionstamp;
  total = c.total;
  next_chunk = 2;
  blob = value;
}

process_first-several :
    (a : Assembler) (key value : List ℕ) (c : ChunkKey)
    → c.chunk ≡ 1
    → 1 < c.total
    → pending_of c.id (process_first (record a { last_key = some key }) c key value)
      ≡ some (begun_partial key value c)
unfolding process_first
process_first-several a key value c first more =
    let not_alone : (c.chunk == 1 && c.total == 1) ≡ false = grind arith in
    let begins : (c.chunk == 1 && ltb 1 c.total) ≡ true = grind arith in
    rw (not_alone, begins)
      (find-insert_same c.id (begun_partial key value c) (opened a key c).partials)

-- After the rows of the chunks of a transaction, in order and with any rows of other transactions
-- and odd rows between them, where nothing was pending for it before, the last output of the
-- assembler is the complete transaction, with the versionstamp of its first chunk and its chunks
-- joined, from the key of its first row to that of its last.
pub push_all-Transaction :
    (id stamp first : List ℕ) (rows : List Row) (blob end : List ℕ) (a : Assembler)
    → Transaction id stamp first rows blob end
    → pending_of id a ≡ none
    → (earlier : List Output) × ((push_all a rows).outputs
        ≡ earlier ++ complete_output first end stamp id blob ∷ [])
unfolding push_all
push_all-Transaction id _ _ _ _ _ a (single key value c e same at alone) absent =
    let pushed = push-first a key value c e (rw same absent) in
    let done = process_first-single a key value c at alone in
    (
      (opened a key c).outputs,
      ap (λ (b : Assembler). b.outputs) pushed
          ∙ done
          ∙ ap
              (λ i. (opened a key c).outputs ++ complete_output key key c.versionstamp i value ∷ [])
              same,
    )
push_all-Transaction id _ _ _ _ _ a (several key value rest end rows c e same at more small chunks)
      absent =
    let pushed = push-first a key value c e (rw same absent) in
    let begins = process_first-several a key value c at more in
    push_all-Chunks id c.total 2 c.versionstamp rows rest end (push a key value)
      (begun_partial key value c) small chunks
      (ap (pending_of id) pushed
        ∙ subst
            (λ i.
              pending_of i (process_first (record a { last_key = some key }) c key value)
              ≡ some (begun_partial key value c))
            same begins)
      (record { total_is = refl; next_is = refl; stamp_is = refl })
