-- ===== src/Maps/Distinct.antt =====
-- Maps none of whose keys stands twice in the association list, as the Go maps that they model.
use edge_q.Prelude.{
  String, ◌≡◌, refl, sym, ap, ◌∙◌, inl, inr, Bool-cases, true, false, some, List, [], ◌∷◌, arith,
  ◌==◌, eq_iff, eq_refl, if◌then◌else◌, is_some,
}
use edge_q.Maps.{Map, lookup, insert, has_key, lookup-insert, IsRange}

module _ {ℓ} {V : Type ℓ} where
  abbrev pub IsDistinct : Map V → Type 0
  IsDistinct [] = Unit {0}
  IsDistinct ((k, v) ∷ m) = (has_key k m ≡ false) × IsDistinct m

  -- Which keys there are after an insertion.
  pub has_key_after :
      (k j : String) (v : V) (m : Map V)
      → has_key j (insert k v m) ≡ (if k == j then true else has_key j m)
  has_key_after k j v m = ap is_some (lookup-insert k j v m) ∙ ground (arith, Bool-cases (k == j))

  pub insert-IsDistinct :
      (k : String) (v : V) (m : Map V) → IsDistinct m → IsDistinct (insert k v m)
  unfolding insert lookup
  insert-IsDistinct k v [] d = (refl, tt)
  insert-IsDistinct k v ((j, w) ∷ m) (fresh, d) = elim (Bool-cases (j == k)) [
    | inl same ↦ rw same (ap (λ i. has_key i m) (sym ((eq_iff j k).0 same)) ∙ fresh, d)
    | inr other ↦ rw other (
      ground (arith, has_key_after k j v m, eq_iff k j, eq_iff j k, eq_refl j),
      insert-IsDistinct k v m d,
    )
  ]

  -- An entry that is replaced leaves the keys as they are.
  pub insert-IsRange :
      (k : String) (v w : V) (m : Map V) (order : List String)
      → lookup k m ≡ some w
      → IsRange order m
      → IsRange order (insert k v m)
  insert-IsRange k v w m order there r = record {
    visits = λ j. r.visits j ∙ ground (arith, has_key_after k j v m, eq_iff k j, there, same_key j);
  }
    where
      same_key : (j : String) → (k == j) ≡ true → has_key j m ≡ true
      same_key j e = ap (λ i. has_key i m) (sym ((eq_iff k j).0 e)) ∙ ap is_some there

  -- What holds of every value that `lookup` finds holds of every entry.
  pub lookup_inside :
      (k : String) (v : V) (m : Map V) (j : String) (w : V)
      → IsDistinct ((k, v) ∷ m)
      → lookup j m ≡ some w
      → lookup j ((k, v) ∷ m) ≡ some w
  unfolding lookup
  lookup_inside k v m j w (fresh, d) h = elim (Bool-cases (k == j)) [
    | inl same ↦ absurd (ground (arith, ap (λ i. has_key i m) ((eq_iff k j).0 same), fresh, h))
    | inr other ↦ rw other h
  ]
