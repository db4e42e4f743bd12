-- ===== src/Budget/Custom.antt =====
-- The application metrics of an attempt in foundationdb/src/budget.rs: a map from `MetricKey` of
-- metrics.rs, allocated on first use. A `HashMap` is an association list with one entry for a key.
use foundationdb_rs.Prelude.{
  ℕ, ◌+◌, ◌%◌, ◌^◌, ◌≡◌, ◌≢◌, refl, sym, ◌∙◌, ap₂, inl, inr, Bool, true, false, ◌&&◌, Option, none,
  some, List, [], ◌∷◌, if◌then◌else◌, Bool-cases,
}
use foundationdb_rs.Tuple.Versionstamp.{same_bytes, same_bytes-eq, same_bytes_self}
use foundationdb_rs.Budget.{MetricKey, Metrics, AttemptUsage, add_u64, snapshot, elapsed}

-- The derived `PartialEq` of `MetricKey`
abbrev pub same_labels : List (List ℕ × List ℕ) → List (List ℕ × List ℕ) → Bool
same_labels [] [] = true
same_labels [] (l ∷ ls) = false
same_labels (l ∷ ls) [] = false
same_labels (l ∷ ls) (k ∷ ks) = (same_bytes l.0 k.0 && same_bytes l.1 k.1) && same_labels ls ks

unfoldable pub same_key : MetricKey → MetricKey → Bool
same_key a b = same_bytes a.name b.name && same_labels a.labels b.labels

-- `HashMap::get` and `HashMap::insert`
abbrev pub lookup : Metrics → MetricKey → Option ℕ
lookup [] key = none
lookup ((k, v) ∷ rest) key = let found = lookup rest key in if same_key k key then some v else found

abbrev pub insert : Metrics → MetricKey → ℕ → Metrics
insert [] key value = (key, value) ∷ []
insert ((k, v) ∷ rest) key value =
    let below = insert rest key value in
    if same_key k key then (k, value) ∷ rest else (k, v) ∷ below

abbrev pub or_zero : Option ℕ → ℕ
or_zero none = 0
or_zero (some value) = value

abbrev pub metrics_or_new : Option Metrics → Metrics
metrics_or_new none = []
metrics_or_new (some metrics) = metrics

-- `AttemptUsage::with_custom`: the map is made on first use.
unfoldable pub with_custom : AttemptUsage → (Metrics → Metrics) → AttemptUsage
with_custom usage f = record usage { custom = some (f (metrics_or_new usage.custom)) }

-- `AttemptUsage::set_custom`
unfoldable pub set_custom : AttemptUsage → MetricKey → ℕ → AttemptUsage
set_custom usage key value = with_custom usage (λ custom. insert custom key value)

-- `AttemptUsage::increment_custom`: `*custom.entry(key).or_insert(0) += amount`
unfoldable pub increment_custom : AttemptUsage → MetricKey → ℕ → AttemptUsage
increment_custom usage key amount =
    with_custom usage (λ custom. insert custom key (add_u64 (or_zero (lookup custom key)) amount))

-- `AttemptUsage::custom_metrics`: `unwrap_or_default`
unfoldable pub custom_metrics : AttemptUsage → Metrics
custom_metrics usage = metrics_or_new usage.custom

both : (a b : Bool) → a && b ≡ true → (a ≡ true) × (b ≡ true)
both true b h = (refl, h)
both false b h = cc

same_labels-eq : (a b : List (List ℕ × List ℕ)) → same_labels a b ≡ true → a ≡ b
same_labels-eq [] [] h = refl
same_labels-eq [] (l ∷ ls) h = cc
same_labels-eq (l ∷ ls) [] h = cc
same_labels-eq (l ∷ ls) (k ∷ ks) h =
    let (first, rest) = both (same_bytes l.0 k.0 && same_bytes l.1 k.1) (same_labels ls ks) h in
    let (name, value) = both (same_bytes l.0 k.0) (same_bytes l.1 k.1) first in
    ap₂ (λ (p : List ℕ × List ℕ) ps. p ∷ ps)
      (ap₂ (λ x y. (x, y)) (same_bytes-eq l.0 k.0 name) (same_bytes-eq l.1 k.1 value))
      (same_labels-eq ls ks rest)

same_labels_self : (a : List (List ℕ × List ℕ)) → same_labels a a ≡ true
same_labels_self [] = refl
same_labels_self (l ∷ ls) = rw (same_bytes_self l.0, same_bytes_self l.1) (same_labels_self ls)

same_key-eq : (a b : MetricKey) → same_key a b ≡ true → a ≡ b
unfolding same_key
same_key-eq a b h =
    let (names, labels) = both (same_bytes a.name b.name) (same_labels a.labels b.labels) h in
    ap₂ (λ x y. record { name = x; labels = y }) (same_bytes-eq a.name b.name names)
      (same_labels-eq a.labels b.labels labels)

same_key_self : (a : MetricKey) → same_key a a ≡ true
unfolding same_key
same_key_self a = rw (same_bytes_self a.name) (same_labels_self a.labels)

lookup-insert :
    (m : Metrics) (key : MetricKey) (value : ℕ) → lookup (insert m key value) key ≡ some value
lookup-insert [] key value = rw (same_key_self key) refl
lookup-insert ((k, v) ∷ rest) key value = elim (Bool-cases (same_key k key)) [
  | inl same ↦ rw (same, same) refl
  | inr other ↦ rw (other, other) (lookup-insert rest key value)
]

lookup-insert_other :
    (m : Metrics) (key other : MetricKey) (value : ℕ)
    → other ≢ key
    → lookup (insert m key value) other ≡ lookup m other
lookup-insert_other [] key other value apart = elim (Bool-cases (same_key key other)) [
  | inl same ↦ absurd (apart (sym (same_key-eq key other same)))
  | inr differ ↦ rw differ refl
]
lookup-insert_other ((k, v) ∷ rest) key other value apart = elim (Bool-cases (same_key k key)) [
  | inl same ↦ elim (Bool-cases (same_key k other)) [
    | inl twice ↦ absurd (apart (sym (same_key-eq k other twice) ∙ same_key-eq k key same))
    | inr differ ↦ rw (same, differ) refl
  ]
  | inr differ ↦ rw (differ, lookup-insert_other rest key other value apart) refl
]

-- After a metric of an attempt is set, it reads the value; after it is incremented, it reads the sum
-- modulo 2^64 with what it read before, or with zero where it was not recorded; and neither changes
-- what any other metric reads, nor the usage of the attempt.
pub custom_lem :
    (usage : AttemptUsage) (key other : MetricKey) (value later : ℕ)
    → other ≢ key
    → ((lookup (custom_metrics (set_custom usage key value)) key ≡ some value)
        × (lookup (custom_metrics (increment_custom usage key value)) key
            ≡ some ((or_zero (lookup (custom_metrics usage) key) + value) % 2 ^ 64)))
      × (((lookup (custom_metrics (set_custom usage key value)) other
              ≡ lookup (custom_metrics usage) other)
            × (lookup (custom_metrics (increment_custom usage key value)) other
                ≡ lookup (custom_metrics usage) other))
          × ((snapshot (set_custom usage key value) later ≡ snapshot usage later)
              × (snapshot (increment_custom usage key value) later ≡ snapshot usage later)))
unfolding custom_metrics set_custom increment_custom with_custom snapshot elapsed
custom_lem usage key other value later apart =
    let m = metrics_or_new usage.custom in
    let sum = add_u64 (or_zero (lookup m key)) value in
    (
      (lookup-insert m key value, lookup-insert m key sum),
      (
        (lookup-insert_other m key other value apart, lookup-insert_other m key other sum apart),
        (refl, refl),
      ),
    )
