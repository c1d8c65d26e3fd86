-- ===== src/Maps.antt =====
-- Go maps with string keys, as association lists. `range` over a map visits its keys in an order
-- that the run time chooses: the operations that iterate take that order as an argument.
pub mod Distinct
use edge_q.Prelude.{
  String, ◌≡◌, refl, ap, sym, ◌∙◌, ◌⊎◌, inl, inr, Bool, Bool-cases, true, false, ◌||◌, Option, none,
  some, List, [], ◌∷◌, arith, ◌==◌, eq_iff, eq_refl, if◌then◌else◌, is_some,
}

abbrev pub Map {ℓ} : Type ℓ → Type ℓ
Map V = List (String × V)

abbrev pub contains : String → List String → Bool
contains k [] = false
contains k (j ∷ ks) = j == k || contains k ks

module _ {ℓ} {V : Type ℓ} where
  unfoldable pub lookup : String → Map V → Option V
  lookup k [] = none
  lookup k ((j, v) ∷ m) = if j == k then some v else lookup k m

  unfoldable pub insert : String → V → Map V → Map V
  insert k v [] = (k, v) ∷ []
  insert k v ((j, w) ∷ m) = if j == k then (k, v) ∷ m else (j, w) ∷ insert k v m

  abbrev pub has_key : String → Map V → Bool
  has_key k m = is_some (lookup k m)

  pub lookup_empty : (k : String) → lookup k [] ≡ none
  unfolding lookup
  lookup_empty k = refl

  -- One entry in front of a map, as `lookup` sees it.
  lookup_cons :
      (key : String) (entry : String × V) (rest : Map V)
      → lookup key (entry ∷ rest) ≡ (if entry.0 == key then some entry.1 else lookup key rest)
  unfolding lookup
  lookup_cons key entry rest = refl

  pub lookup-insert :
      (key at : String) (value : V) (entries : Map V)
      → lookup at (insert key value entries) ≡ (if key == at then some value else lookup at entries)
  unfolding lookup insert
  lookup-insert key at value [] = refl
  lookup-insert key at value (entry ∷ rest) = elim (Bool-cases (entry.0 == key)) [
    | inl same ↦
        rw (insert, same)
          (ground (
            arith,
            eq_iff entry.0 key,
            lookup_cons at entry rest,
            ap (λ n. n == at) ((eq_iff entry.0 key).0 same),
          ))
    | inr other ↦ ground (
      arith,
      other,
      eq_iff key at,
      eq_iff entry.0 at,
      eq_iff entry.0 key,
      lookup-insert key at value rest,
      lookup_cons at entry (insert key value rest),
      lookup_cons at entry rest,
    )
  ]

  some_inj : {a b : V} → some a ≡ some b → a ≡ b
  some_inj h = cc

  pub lookup-insert_cases :
      (k j : String) (v : V) (m : Map V) {r : V}
      → lookup j (insert k v m) ≡ some r
      → ((k ≡ j) × (v ≡ r)) ⊎ (lookup j m ≡ some r)
  lookup-insert_cases k j v m h = elim (Bool-cases (k == j)) [
    | inl same ↦ inl ((eq_iff k j).0 same, some_inj (rw same at (sym (lookup-insert k j v m) ∙ h)))
    | inr other ↦ inr (rw other at (sym (lookup-insert k j v m) ∙ h))
  ]

  pub has_key-insert :
      (k j : String) (v : V) (m : Map V) → has_key j m ≡ true → has_key j (insert k v m) ≡ true
  has_key-insert k j v m h = rw (lookup-insert k j v m) (ground (arith, Bool-cases (k == j)))

  pub lookup-insert_self : (k : String) (v : V) (m : Map V) → lookup k (insert k v m) ≡ some v
  lookup-insert_self k v m = simp (lookup-insert, eq_refl)

  -- An order in which `range` may visit the entries of a map: the keys are those of the map.
  pub record IsRange (order : List String) (m : Map V) : Type ℓ where
    pub visits : (k : String) → contains k order ≡ has_key k m
