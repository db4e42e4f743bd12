-- ===== src/Profiling/Reader/Stays.antt =====
-- What the rows of a page leave as it is: where the page started, and the last row.
use foundationdb_rs.Prelude.{
  ℕ, ◌≡◌, refl, ◌∙◌, if◌then◌else◌, ◌&&◌, ◌==◌, ltb, leb, List, inl, inr, Bool-cases, Option-cases,
}
use foundationdb_rs.Profiling.Reader.{
  Partial, Assembler, ChunkKey, find, remove, report_broken, process_first, continue_partial,
  continues, process,
}

-- Where the page started and its last row stay as they are.
abbrev pub Stays : Assembler → Assembler → Type 0
Stays a b = (b.start ≡ a.start) × (b.last_key ≡ a.last_key)

Stays-report_broken :
    (a : Assembler) (first stamp id key : List ℕ) → Stays a (report_broken a first stamp id key)
unfolding report_broken
Stays-report_broken a first stamp id key = elim (Option-cases (find id a.broken)) [
  | inl absent ↦ rw (absent, report_broken) (refl, refl)
  | inr (i, there) ↦ rw (there, report_broken) (refl, refl)
]

Stays-process_first :
    (a : Assembler) (parsed : ChunkKey) (key value : List ℕ)
    → Stays a (process_first a parsed key value)
unfolding process_first
Stays-process_first a parsed key value =
    let a' =
      if parsed.chunk == 1 && leb 1 parsed.total
      then record a { broken = remove parsed.id a.broken }
      else a in
    let same : Stays a a' = elim (Bool-cases (parsed.chunk == 1 && leb 1 parsed.total)) [
      | inl fresh ↦ rw fresh (refl, refl)
      | inr other ↦ rw other (refl, refl)
    ] in
    elim (Bool-cases (parsed.chunk == 1 && parsed.total == 1)) [
      | inl single ↦ rw single same
      | inr more ↦ elim (Bool-cases (parsed.chunk == 1 && ltb 1 parsed.total)) [
        | inl begins ↦ rw (more, begins) same
        | inr out ↦
            let (start, last) = Stays-report_broken a' key parsed.versionstamp parsed.id key in
            rw (more, out) (start ∙ same.0, last ∙ same.1)
      ]
    ]

Stays-continue_partial :
    (a : Assembler) (p : Partial) (parsed : ChunkKey) (key value : List ℕ)
    → Stays a (continue_partial a p parsed key value)
unfolding continue_partial
Stays-continue_partial a p parsed key value = elim (Bool-cases (parsed.chunk == p.total)) [
  | inl last ↦ rw last (refl, refl)
  | inr more ↦ rw more (refl, refl)
]

pub Stays-process :
    (a : Assembler) (parsed : ChunkKey) (key value : List ℕ) → Stays a (process a parsed key value)
unfolding process
Stays-process a parsed key value = elim (Option-cases (find parsed.id a.partials)) [
  | inl absent ↦ rw (absent, process) (Stays-process_first a parsed key value)
  | inr (p, there) ↦
      let taken = record a { partials = remove parsed.id a.partials } in
      elim (Bool-cases (continues parsed p)) [
        | inl next ↦ rw (there, next, process) (Stays-continue_partial taken p parsed key value)
        | inr breaks ↦
            let mid = report_broken taken p.first_key p.versionstamp parsed.id key in
            let (start, last) = Stays-process_first mid parsed key value in
            let (start', last') =
              Stays-report_broken taken p.first_key p.versionstamp parsed.id key in
            rw (there, breaks, process) (start ∙ start', last ∙ last')
      ]
]
