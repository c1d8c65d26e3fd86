-- ===== src/Template/Sync.antt =====
-- The updates of pkg/controllers/imtemplate/imtemplate_controller.go against the versions.
use edge_q.Prelude.{◌≡◌, refl, ap, inl, inr, Bool-cases, List, [], ◌∷◌, ◌++◌, if◌then◌else◌}
use edge_q.Prelude.Int.{ℤ}
use edge_q.Outcome.{ok, err, panic, Outcome-cases}
use edge_q.Maps.{Map}
use edge_q.Template.{Api, Version, Write, update_version, Wrote, after, sync_versions}

-- The updates that the versions need, in order.
pub needed : Api → Map ℤ → List Version → List Write
needed api groups [] = []
needed api groups (item ∷ items) =
    let rest : List Write = needed api groups items in
    if api.deep_equal item.service_group groups
    then rest
    else update_version (record item { service_group = groups }) ∷ rest

module _ (api : Api) where
  after-split :
      (w : Write) (next : Wrote) (all left : List Write)
      → next.0 ++ left ≡ all
      → (next.1 ≡ ok tt → left ≡ [])
      → (rest : List Write) × ((after api w next).0 ++ rest ≡ w ∷ all)
        × ((after api w next).1 ≡ ok tt → rest ≡ [])
  unfolding after
  after-split w next all left whole done = elim (Outcome-cases (api.write w)) [
    | inl (u, e) ↦ (left, rw (e, after) (ap (λ (x : List Write). w ∷ x) whole), rw (e, after) done)
    | inr (inl (x, e)) ↦ (all, rw (e, after) refl, rw (e, after) (λ (h : err x ≡ ok tt). cc))
    | inr (inr e) ↦ (all, rw (e, after) refl, rw (e, after) (λ (h : panic ≡ ok tt). cc))
  ]

  -- The updates that are made are a first part of those that are needed, and all of them where the
  -- loop ends without an error.
  pub sync_versions-needed :
      (groups : Map ℤ) (items : List Version)
      → (left : List Write) × ((sync_versions api groups items).0 ++ left ≡ needed api groups items)
        × ((sync_versions api groups items).1 ≡ ok tt → left ≡ [])
  unfolding sync_versions needed
  sync_versions-needed groups [] = ([], refl, λ _. refl)
  sync_versions-needed groups (item ∷ items) =
      let (left, whole, done) = sync_versions-needed groups items in
      elim (Bool-cases (api.deep_equal item.service_group groups)) [
        | inl same ↦ (left, rw same whole, rw same done)
        | inr differs ↦ rw differs (
            after-split (update_version (record item { service_group = groups }))
              (sync_versions api groups items) (needed api groups items) left whole done)
      ]
