-- ===== src/Profiling/Reader/Settle.antt =====
-- What `Assembler::finish` keeps for its page, breaks or leaves to the next one.
use foundationdb_rs.Prelude.{
  ℕ, ◌≡◌, refl, sym, subst, arith, Bool, true, false, not, ◌&&◌, List, [], ◌∷◌, ◌++◌, append-nil,
  All, ◌⊎◌, inl, inr, Bool-cases,
}
use foundationdb_rs.Tuple.Compare.Total.{before, before_irrefl, not_before_trans}
use foundationdb_rs.Profiling.Reader.{
  Output, Partial, Assembler, IdMap, number_from, sort_by_last, cut_at, cut_loop, sort_by_first,
  broken_outputs, keep, after_last, settle,
}
use foundationdb_rs.Profiling.Reader.Cut.{
  IsCut, All-sort_by_last, sort_by_last-All, IsDescending-sort_by_last, IsDistinct-sort_by_last,
  IsDistinct-number_from, cut_loop-below, cut_loop-above, cut_loop-IsCut,
}
use foundationdb_rs.Profiling.Reader.Placed.{IsOutput, IsPartial, Each, IsPlaced}
use foundationdb_rs.Profiling.Reader.Resume.{
  Splits, keep-Splits, Splits-All, All-each, All-number_from, IsAscending, sort_by_first-All,
  All-sort_by_first, IsAscending-sort_by_first, is_seen-before,
}

abbrev pub AtOrBehind : List ℕ → IdMap Partial → Type 0
AtOrBehind next partials = Each (λ (p : Partial). before p.first_key next ≡ false) partials

-- The page gives some outputs, all of which end before the next page, and what it does not give begins
-- at or behind it, so that the next page reads it in whole: the pending transactions too, unless a stop
-- breaks them, and then they are reported and lie before the next page.
pub record Resumes (a : Assembler) (stopped : Bool) (out : List Output) (next : List ℕ)
    : Type 0 where
  pub given : List Output
  pub broken : List Output
  pub whole : out ≡ given ++ broken
  pub split : Splits next a.outputs given
  pub pending :
      ((broken ≡ []) × AtOrBehind next a.partials)
      ⊎ ((stopped ≡ true)
          × ((broken ≡ broken_outputs (sort_by_first a.partials))
              × Each (λ (p : Partial). before p.first_key next ≡ true) a.partials))

module _ (a : Assembler) (ha : IsPlaced (a.start).key a.last_key a) where
  ended : Splits (after_last a) a.outputs a.outputs
  ended = Splits-All (after_last a) a.outputs (
      All-each (IsOutput (a.start).key a.last_key) (λ o. before o.last_key (after_last a) ≡ true)
        a.outputs (λ o h. is_seen-before a o.last_key h.seen) ha.outputs)

  Resumes-nothing :
      (stopped : Bool) → sort_by_first a.partials ≡ [] → Resumes a stopped a.outputs (after_last a)
  Resumes-nothing stopped nothing = record {
    given = a.outputs;
    broken = [];
    whole = sym (append-nil a.outputs);
    split = ended;
    pending = inl (
      refl,
      sort_by_first-All (λ p. before p.first_key (after_last a) ≡ false) a.partials (rw nothing tt),
    );
  }

  Resumes-broken :
      (stopped : Bool)
      → stopped ≡ true
      → Resumes a stopped (a.outputs ++ broken_outputs (sort_by_first a.partials)) (after_last a)
  Resumes-broken stopped stop = record {
    given = a.outputs;
    broken = broken_outputs (sort_by_first a.partials);
    whole = refl;
    split = ended;
    pending = inr (
      stop,
      (
        refl,
        All-each (λ e. IsPartial (a.start).key a.last_key e.1)
            (λ e. before (e.1).first_key (after_last a) ≡ true) a.partials
            (λ e h. is_seen-before a (e.1).first_key h.seen) ha.partials,
      ),
    );
  }

  -- The outputs are cut at the next page.
  IsCut-cut_at :
      (cut : List ℕ) → All (IsCut (cut_at a cut).0 (cut_at a cut).1) (number_from 0 a.outputs)
  unfolding cut_at
  IsCut-cut_at cut =
      let numbered = number_from 0 a.outputs in
      let sorted = sort_by_last numbered in
      sort_by_last-All (IsCut (cut_loop cut sorted).0 (cut_loop cut sorted).1) numbered (
        cut_loop-IsCut cut sorted
          (IsDistinct-sort_by_last numbered (IsDistinct-number_from 0 a.outputs))
          (IsDescending-sort_by_last numbered))

  cut_at-below : (cut : List ℕ) → before cut (cut_at a cut).0 ≡ false
  unfolding cut_at
  cut_at-below cut = cut_loop-below cut (sort_by_last (number_from 0 a.outputs))

  cut_at-above :
      (cut : List ℕ)
      → before cut (a.start).key ≡ false
      → before (cut_at a cut).0 (a.start).key ≡ false
  unfolding cut_at
  cut_at-above cut h = cut_loop-above (a.start).key cut (sort_by_last (number_from 0 a.outputs)) h (
      All-sort_by_last (λ y. before (y.1).first_key (a.start).key ≡ false) (number_from 0 a.outputs)
        (All-number_from (a.start).key a.last_key 0 a.outputs ha.outputs))

  -- The oldest of the pending transactions
  oldest_first :
      (oldest : Partial) (others : List Partial)
      → sort_by_first a.partials ≡ oldest ∷ others
      → AtOrBehind oldest.first_key a.partials
  oldest_first oldest others e =
      let up : IsAscending (oldest ∷ others) =
        subst IsAscending e (IsAscending-sort_by_first a.partials) in
      sort_by_first-All (λ p. before p.first_key oldest.first_key ≡ false) a.partials
        (rw e (before_irrefl oldest.first_key, up.0))

  Resumes-cut :
      (stopped : Bool) (oldest : Partial) (others : List Partial)
      → sort_by_first a.partials ≡ oldest ∷ others
      → Resumes a stopped
          (keep (number_from 0 a.outputs) (cut_at a oldest.first_key).1)
          (cut_at a oldest.first_key).0
  Resumes-cut stopped oldest others e =
      let cut = cut_at a oldest.first_key in
      record {
        given = keep (number_from 0 a.outputs) cut.1;
        broken = [];
        whole = sym (append-nil (keep (number_from 0 a.outputs) cut.1));
        split = keep-Splits cut.0 cut.1 0 a.outputs (IsCut-cut_at oldest.first_key);
        pending = inl (
          refl,
          All-each (λ f. before (f.1).first_key oldest.first_key ≡ false)
              (λ f. before (f.1).first_key cut.0 ≡ false) a.partials
              (λ f h.
                not_before_trans cut.0 oldest.first_key (f.1).first_key
                  (cut_at-below oldest.first_key) h)
              (oldest_first oldest others e),
        );
      }

pub settle-Resumes :
    (a : Assembler) (stopped : Bool)
    → IsPlaced (a.start).key a.last_key a
    → Resumes a stopped (settle a stopped).0 (settle a stopped).1
unfolding settle
settle-Resumes a stopped ha = go (sort_by_first a.partials) refl
  where
    go :
        (ps : List Partial)
        → sort_by_first a.partials ≡ ps
        → Resumes a stopped (settle a stopped).0 (settle a stopped).1
    go [] e = rw (e, settle) (Resumes-nothing a ha stopped e)
    go (oldest ∷ others) e =
        elim (Bool-cases (stopped && not (before (a.start).key (cut_at a oldest.first_key).0))) [
          | inl stuck ↦
              let broken = Resumes-broken a ha stopped (ground arith) in
              rw (e, settle, stuck) (rw e at broken)
          | inr onward ↦ rw (e, settle, onward) (Resumes-cut a ha stopped oldest others e)
        ]

-- The next page begins at or behind the start, and behind it after a stop.
abbrev pub IsForward : List ℕ → List ℕ → Bool → Type 0
IsForward start next stopped =
    (before next start ≡ false) × (stopped ≡ true → before start next ≡ true)

pub settle-IsForward :
    (a : Assembler) (stopped : Bool)
    → IsPlaced (a.start).key a.last_key a
    → IsForward (a.start).key (after_last a) stopped
    → IsForward (a.start).key (settle a stopped).1 stopped
unfolding settle
settle-IsForward a stopped ha ended = go (sort_by_first a.partials) refl
  where
    go :
        (ps : List Partial)
        → sort_by_first a.partials ≡ ps
        → IsForward (a.start).key (settle a stopped).1 stopped
    go [] e = rw (e, settle) ended
    go (oldest ∷ others) e =
        elim (Bool-cases (stopped && not (before (a.start).key (cut_at a oldest.first_key).0))) [
          | inl stuck ↦ rw (e, settle, stuck) ended
          | inr onward ↦
              let all : All (λ (p : Partial). IsPartial (a.start).key a.last_key p)
                  (oldest ∷ others) =
                subst (All (λ (p : Partial). IsPartial (a.start).key a.last_key p)) e (
                  All-sort_by_first (λ p. IsPartial (a.start).key a.last_key p) a.partials
                    ha.partials) in
              let first = all.0 in
              rw (e, settle, onward)
                (cut_at-above a ha oldest.first_key first.inside, λ stop. ground arith)
        ]
