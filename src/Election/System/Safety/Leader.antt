-- ===== src/Election/System/Safety/Leader.antt =====
-- Every reachable system is safe, and so at most one participant leads.
use foundationdb_rs.Prelude.{ℕ, ◌+◌, ◌<◌, ◌≡◌, inl, inr, refl, arith}
use foundationdb_rs.Election.Types.{ParticipantId, Duration}
use foundationdb_rs.Election.System.{Phase, System, update, initial, Step, Reach, Claims}
use foundationdb_rs.Election.System.Safety.{IsSafe}
use foundationdb_rs.Election.System.Safety.Quiet.{
  tick-IsSafe, start-IsSafe, idle-IsSafe, forget-IsSafe, adopted-IsSafe,
}
use foundationdb_rs.Election.System.Safety.Preserved.{commit-IsSafe}
use foundationdb_rs.Election.System.Safety.Resigned.{resign-IsSafe}

Step-IsSafe :
    (lease : ParticipantId → Duration) (s t : System)
    → IsSafe lease s
    → Step lease s t
    → IsSafe lease t
Step-IsSafe lease s _ safe (Step.tick _ d) = tick-IsSafe lease s safe d
Step-IsSafe lease s _ safe (Step.start _ p rests) = start-IsSafe lease s safe p
Step-IsSafe lease s _ safe (Step.commit _ p at result written hp hl began done) =
    commit-IsSafe lease s safe p at result written hp hl began done
Step-IsSafe lease s _ safe (Step.adopted _ p at next waits) =
    adopted-IsSafe lease s safe p at next waits
Step-IsSafe lease s _ safe (Step.abandon _ p) = idle-IsSafe lease s safe p
Step-IsSafe lease s _ safe (Step.restart _ p) =
    forget-IsSafe lease (record s { phase = update s.phase p Phase.idle })
      (idle-IsSafe lease s safe p) p
Step-IsSafe lease s _ safe (Step.give_up _ p l outcome written rests holds done) =
    resign-IsSafe lease s safe p l outcome written rests done

initial-IsSafe : (lease : ParticipantId → Duration) → IsSafe lease initial
initial-IsSafe lease = record {
  durable = (omega arith, tt, refl);
  owner_lease = λ o h. cc;
  claims = λ p r l a c. absurd (none_claimed p r l a c);
  observed = λ q ob h. cc;
  started = λ q at h. cc;
  staged = λ q at o r l timer h. cc;
}
  where
    none_claimed : (p : ParticipantId) (r l a : ℕ) → Claims initial p r l a → ⊥
    none_claimed p r l a c = elim c [ Claims.held h ↦ cc | Claims.staged h ↦ cc ]

-- Every reachable state satisfies the invariant of the election.
pub Reach-IsSafe : (lease : ParticipantId → Duration) (s : System) → Reach lease s → IsSafe lease s
Reach-IsSafe lease s Reach.begin = initial-IsSafe lease
Reach-IsSafe lease t (Reach.next {s} reach move) =
    Step-IsSafe lease s t (Reach-IsSafe lease s reach) move

-- In every interleaving of polls, commits, adoptions, failures, restarts and resignations, of
-- participants that each use one lease duration, two participants whose leases still run, from the
-- moment before the poll that granted them, are the same: there is never a second leader.
pub one_leader :
    (lease : ParticipantId → Duration) (s : System) (p q : ParticipantId) (r l a r' l' a' : ℕ)
    → Reach lease s
    → Claims s p r l a
    → Claims s q r' l' a'
    → s.now < a + l
    → s.now < a' + l'
    → p ≡ q
one_leader lease s p q r l a r' l' a' reach c c' running running' =
    let safe = Reach-IsSafe lease s reach in
    let (_, _, _, owned) = safe.claims p r l a c in
    let (_, _, _, owned') = safe.claims q r' l' a' c' in
    elim owned [
      | inl own ↦ elim owned' [ inl own' ↦ cc | inr over ↦ absurd (omega arith) ]
      | inr over ↦ absurd (omega arith)
    ]
