-- ===== src/Profiling/Reader/Finish.antt =====
-- foundationdb-profiling/src/reader.rs: what the assembler gives to its page, and where the next begins.
use foundationdb_rs.Prelude.{
  ℕ, ◌+◌, Bool, false, not, ◌&&◌, ◌||◌, none, some, List, [], ◌∷◌, ◌++◌, ◌==◌, if◌then◌else◌,
}
use foundationdb_rs.Tuple.Compare.Total.{before}
use foundationdb_rs.Profiling.Reader.Keys.{key_after}
use foundationdb_rs.Profiling.Reader.Process.{Assembled, Output, Partial, IdMap, Assembler}

-- An output with its place and whether it is kept
abbrev pub Numbered : Type 0
Numbered = ℕ × Output

unfoldable pub number_from : ℕ → List Output → List Numbered
number_from n [] = []
number_from n (o ∷ outputs) = (n, o) ∷ number_from (n + 1) outputs

-- The stable sort of the places by the last key, the greatest first
unfoldable pub place_by_last : Numbered → List Numbered → List Numbered
place_by_last x [] = x ∷ []
place_by_last x (y ∷ ys) =
    let rest = place_by_last x ys in
    if before (x.1).last_key (y.1).last_key then y ∷ rest else x ∷ (y ∷ ys)

unfoldable pub sort_by_last : List Numbered → List Numbered
unfolding place_by_last
sort_by_last [] = []
sort_by_last (x ∷ xs) = place_by_last x (sort_by_last xs)

-- The loop of `Assembler::cut`
unfoldable pub cut_loop : List ℕ → List Numbered → List ℕ × List ℕ
cut_loop cut [] = (cut, [])
cut_loop cut ((n, o) ∷ rest) =
    let lower = if before o.first_key cut then o.first_key else cut in
    let below : List ℕ × List ℕ = cut_loop lower rest in
    if before o.last_key cut then (cut, []) else (below.0, n ∷ below.1)

-- `Assembler::cut`
unfoldable pub cut_at : Assembler → List ℕ → List ℕ × List ℕ
unfolding number_from sort_by_last cut_loop
cut_at a cut = cut_loop cut (sort_by_last (number_from 0 a.outputs))

-- The sort of the partial transactions by their first key
unfoldable pub place_by_first : Partial → List Partial → List Partial
place_by_first p [] = p ∷ []
place_by_first p (q ∷ ps) =
    let rest = place_by_first p ps in
    if before q.first_key p.first_key then q ∷ rest else p ∷ (q ∷ ps)

unfoldable pub sort_by_first : IdMap Partial → List Partial
unfolding place_by_first
sort_by_first [] = []
sort_by_first ((id, p) ∷ rest) = place_by_first p (sort_by_first rest)

abbrev pub after_last : Assembler → List ℕ
after_last a = elim a.last_key [ some last ↦ key_after last | none ↦ (a.start).key ]

-- A partial transaction that is broken at a stop
abbrev pub broken_output : Partial → Output
broken_output p = record {
  first_key = p.first_key;
  last_key = p.first_key;
  assembled = Assembled.broken p.versionstamp p.id;
}

abbrev pub broken_outputs : List Partial → List Output
broken_outputs [] = []
broken_outputs (p ∷ ps) = broken_output p ∷ broken_outputs ps

unfoldable pub is_member : ℕ → List ℕ → Bool
is_member n [] = false
is_member n (m ∷ ms) = m == n || is_member n ms

-- The outputs that are not dropped
unfoldable pub keep : List Numbered → List ℕ → List Output
unfolding is_member
keep [] dropped = []
keep ((n, o) ∷ rest) dropped =
    let kept = keep rest dropped in if is_member n dropped then kept else o ∷ kept

-- `Assembler::finish` up to the decoding: what the page keeps, and where the next one begins
unfoldable pub settle : Assembler → Bool → List Output × List ℕ
unfolding number_from keep cut_at sort_by_first
settle a stopped = elim (sort_by_first a.partials) [
  | [] ↦ (a.outputs, after_last a)
  | oldest ∷ pending ↦
      let found = cut_at a oldest.first_key in
      if stopped && not (before (a.start).key found.0)
      then (a.outputs ++ broken_outputs (oldest ∷ pending), after_last a)
      else (keep (number_from 0 a.outputs) found.1, found.0)
]
