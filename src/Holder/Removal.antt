-- ===== src/Holder/Removal.antt =====
-- Go's `delete` on the maps of internal/proxy/holder.
use edge_q.Prelude.{
  String, ◌≡◌, refl, ap, sym, ◌∙◌, inl, inr, Bool-cases, false, none, some, [], ◌∷◌, arith, ◌==◌,
  eq_iff, eq_refl, if◌then◌else◌, is_some,
}
use edge_q.Maps.{Map, lookup}
use edge_q.Maps.Distinct.{IsDistinct}
use edge_q.Holder.{remove}

module _ {V : Type 0} where
  pub lookup-remove :
      (k j : String) (m : Map V) → lookup j (remove k m) ≡ (if k == j then none else lookup j m)
  unfolding remove lookup
  lookup-remove k j [] = ground (arith, Bool-cases (k == j))
  lookup-remove k j ((i, v) ∷ m) = elim (Bool-cases (i == k)) [
    | inl same ↦ rw same (lookup-remove k j m ∙ at_key ((eq_iff i k).0 same))
    | inr other ↦ rw other (elim (Bool-cases (i == j)) [
      | inl here ↦ rw (here, ap (λ x. k == x) (sym ((eq_iff i j).0 here)) ∙ swapped other) refl
      | inr there ↦ rw there (lookup-remove k j m)
    ])
  ]
    where
      at_key :
          i ≡ k
          → (if k == j then none else lookup j m)
            ≡ (if k == j then none else (if i == j then some v else lookup j m))
      at_key e = rw e (ground (arith, Bool-cases (k == j)))

      swapped : (i == k) ≡ false → (k == i) ≡ false
      swapped e = ground (arith, eq_iff i k, eq_iff k i, e, eq_refl i)

  pub remove-IsDistinct : (k : String) (m : Map V) → IsDistinct m → IsDistinct (remove k m)
  unfolding remove
  remove-IsDistinct k [] d = tt
  remove-IsDistinct k ((j, v) ∷ m) (fresh, d) = elim (Bool-cases (j == k)) [
    | inl same ↦ rw same (remove-IsDistinct k m d)
    | inr other ↦ rw other (
      ap is_some (lookup-remove k j m) ∙ ground (arith, Bool-cases (k == j), fresh),
      remove-IsDistinct k m d,
    )
  ]
