-- ===== src/Profiling/Reader/Pages.antt =====
-- Reading a page from its rows, and where the next page begins.
use foundationdb_rs.Prelude.{
  ℕ, ◌≡◌, refl, sym, ap, ◌∙◌, subst, arith, Bool, true, false, not, ◌||◌, Option, none, some, List,
  [], ◌∷◌, inl, inr, Bool-cases, Option-cases, ok, Result-cases,
}
use foundationdb_rs.Tuple.Compare.Total.{before, before_irrefl, before_asym, before_of_le}
use foundationdb_rs.Profiling.Reader.{
  Cursor, Partial, Assembler, ScanRange, ProfileScanner, range, process, parse, push, new, Item,
  row, failed, in_order, read_rows, read_page, Page, finish, settle, after_last,
}
use foundationdb_rs.Profiling.Reader.Stays.{Stays-process}
use foundationdb_rs.Profiling.Reader.Placed.{is_seen, IsOutput, IsPartial, IsPlaced, process-Here}
use foundationdb_rs.Profiling.Reader.Resume.{All-each, is_seen-before}
use foundationdb_rs.Profiling.Reader.Settle.{Resumes, settle-Resumes, IsForward, settle-IsForward}

-- An assembler of a page that began at `start`, whose last row is behind it.
pub record IsReading (start : List ℕ) (a : Assembler) : Type 0 where
  pub begun : (a.start).key ≡ start
  pub placed : IsPlaced start a.last_key a
  pub behind : (key : List ℕ) → a.last_key ≡ some key → before key start ≡ false

IsPlaced-start :
    (start : List ℕ) (a : Assembler) → IsReading start a → IsPlaced (a.start).key a.last_key a
IsPlaced-start start a ha = subst (λ s. IsPlaced s a.last_key a) (sym ha.begun) ha.placed

-- What was seen before a row in order is seen after it.
is_seen-in_order :
    (last : Option (List ℕ)) (key k : List ℕ)
    → in_order last key ≡ true
    → is_seen last k ≡ true
    → is_seen (some key) k ≡ true
is_seen-in_order none key k h seen = cc
is_seen-in_order (some last) key k h seen =
    let reached : before last k ≡ false = ground arith in
    let less = before_of_le k last key reached h in rw (before_asym k key less) refl

IsPlaced-in_order :
    (start : List ℕ) (a : Assembler) (key : List ℕ)
    → in_order a.last_key key ≡ true
    → IsPlaced start a.last_key a
    → IsPlaced start (some key) (record a { last_key = some key })
IsPlaced-in_order start a key h placed = record {
  outputs =
      All-each (IsOutput start a.last_key) (IsOutput start (some key)) a.outputs
        (λ o ho. record {
          inside = ho.inside;
          spans = ho.spans;
          seen = is_seen-in_order a.last_key key o.last_key h ho.seen;
        })
        placed.outputs;
  partials =
      All-each (λ (e : List ℕ × Partial). IsPartial start a.last_key e.1)
        (λ (e : List ℕ × Partial). IsPartial start (some key) e.1) a.partials
        (λ e he. record {
          inside = he.inside;
          seen = is_seen-in_order a.last_key key (e.1).first_key h he.seen;
        })
        placed.partials;
}

push-reads :
    (start : List ℕ) (a : Assembler) (key value : List ℕ)
    → before key start ≡ false
    → in_order a.last_key key ≡ true
    → IsReading start a
    → IsReading start (push a key value) × ((push a key value).last_key ≡ some key)
unfolding push
push-reads start a key value behind order ha =
    let seen = record a { last_key = some key } in
    let placed = IsPlaced-in_order start a key order ha.placed in
    elim (Option-cases (parse key)) [
      | inl unparsed ↦
          rw (unparsed, push)
            (
              record {
                begun = ha.begun;
                placed = placed;
                behind = λ k e. let same : key ≡ k = cc in rw (← same) behind;
              },
              refl,
            )
      | inr (parsed, there) ↦
          let (begun, last) = Stays-process seen parsed key value in
          rw (there, push)
            (
              record {
                begun = ap (λ (c : Cursor). c.key) begun ∙ ha.begun;
                placed =
                    subst (λ l. IsPlaced start l (process seen parsed key value)) (sym last)
                      (process-Here start key behind seen parsed value placed);
                behind =
                    λ k e. let same : key ≡ k = (let e' = rw last at e in cc) in rw (← same) behind;
              },
              last,
            )
    ]

IsReading-new : (c : Cursor) → IsReading c.key (new c)
unfolding new
IsReading-new c = record {
  begun = refl;
  placed = record { outputs = tt; partials = tt };
  behind = λ k e. cc;
}

-- What the rows of a page lead to: after a stop there is a last row.
read_rows-reads :
    (r : ScanRange) (a : Assembler) (items : List Item) (b : Assembler) (stopped : Bool)
    → IsReading r.begin a
    → read_rows r a items ≡ ok (b, stopped)
    → IsReading r.begin b × (stopped ≡ true → (key : List ℕ) × (b.last_key ≡ some key))
unfolding read_rows
read_rows-reads r a [] b stopped ha e =
    let same : a ≡ b = cc in
    let no : stopped ≡ false = cc in (subst (IsReading r.begin) same ha, λ stop. cc)
read_rows-reads r a (failed x ∷ items) b stopped ha e = cc
read_rows-reads r a (row key value stop ∷ items) b stopped ha e =
    elim (Bool-cases
      (before key r.begin || (not (before key r.end) || not (in_order a.last_key key)))) [
        | inl invalid ↦ (let no = rw invalid at e in cc)
        | inr valid ↦
            let behind : before key r.begin ≡ false = ground arith in
            let order : in_order a.last_key key ≡ true = ground arith in
            let (reading, last) = push-reads r.begin a key value behind order ha in
            elim (Bool-cases stop) [
              | inl stops ↦
                  let e' = rw (valid, stops) at e in
                  let same : push a key value ≡ b = cc in
                  (subst (IsReading r.begin) same reading, λ h. (key, rw (← same) last))
              | inr goes ↦
                  read_rows-reads r (push a key value) items b stopped reading
                    (rw (valid, goes) at e)
            ]
      ]

after_last-IsForward :
    (start : List ℕ) (a : Assembler) (stopped : Bool)
    → IsReading start a
    → (stopped ≡ true → (key : List ℕ) × (a.last_key ≡ some key))
    → IsForward start (after_last a) stopped
after_last-IsForward start a stopped ha stops = elim (Option-cases a.last_key) [
  | inl absent ↦
      let at_start : before (a.start).key start ≡ false = rw ha.begun (before_irrefl start) in
      (rw absent at_start, λ h. let (key, there) = stops h in cc)
  | inr (last, there) ↦
      let less = is_seen-before a last (rw (there, before_irrefl last) refl) in
      let more = before_of_le start last (after_last a) (ha.behind last there) less in
      (before_asym start (after_last a) more, λ h. more)
]

-- Of a page that was read from rows in order: all that it gives, a transaction or a report of a
-- broken one, in the order of its outputs, ends before the key where the next page begins, and each
-- output that it does not give begins at or behind that key. The pending transactions begin at or
-- behind it too and none of them is given, or the page was stopped, and then all of them are
-- reported as broken and began before it.
pub read_rows-Resumes :
    (scanner : ProfileScanner) (cursor : Cursor) (items : List Item) (a : Assembler)
    (stopped : Bool)
    → read_rows (range scanner cursor) (new cursor) items ≡ ok (a, stopped)
    → Resumes a stopped (settle a stopped).0 (settle a stopped).1
unfolding range
read_rows-Resumes scanner cursor items a stopped e =
    let (reading, last) =
      read_rows-reads (range scanner cursor) (new cursor) items a stopped (IsReading-new cursor)
        e in
    settle-Resumes a stopped (IsPlaced-start (range scanner cursor).begin a reading)

-- The next page never begins before the cursor of a page that was read, and it begins behind it
-- where the page was stopped, so that reading pages comes forward.
pub read_page-forward :
    (scanner : ProfileScanner) (cursor : Cursor) (items : List Item) (page : Page)
    → read_page scanner cursor items ≡ ok page
    → (before (page.next).key cursor.key ≡ false)
      × (page.exhausted ≡ false → before cursor.key (page.next).key ≡ true)
unfolding read_page range finish
read_page-forward scanner cursor items page e =
    elim (Result-cases (read_rows (range scanner cursor) (new cursor) items)) [
      | inr (x, failed_read) ↦ (let no = rw (failed_read, read_page) at e in cc)
      | inl ((a, stopped), read) ↦
          let (reading, last) =
            read_rows-reads (range scanner cursor) (new cursor) items a stopped
              (IsReading-new cursor) read in
          let ended = after_last-IsForward cursor.key a stopped reading last in
          let onward =
            settle-IsForward a stopped (IsPlaced-start cursor.key a reading)
              (subst (λ s. IsForward s (after_last a) stopped) (sym reading.begun) ended) in
          let found : IsForward cursor.key (settle a stopped).1 stopped =
            subst (λ s. IsForward s (settle a stopped).1 stopped) reading.begun onward in
          let e' = rw (read, read_page) at e in
          let same : finish a stopped ≡ page = cc in
          subst
            (λ (p : Page).
              (before (p.next).key cursor.key ≡ false)
              × (p.exhausted ≡ false → before cursor.key (p.next).key ≡ true))
            same (found.0, λ h. found.1 (ground arith))
    ]
