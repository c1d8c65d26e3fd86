-- ===== src/StreamProxy/Attempts.antt =====
-- pkg/endpoint/pool/handler.go: a call that fails is made again, up to ten times.
use edge_q.Prelude.{
  ℕ, zero, suc, ◌≤◌, ◌<◌, ◌≡◌, refl, ap, ◌⊎◌, inl, inr, List, [], ◌∷◌, ◌++◌, length, arith,
}
use edge_q.StreamProxy.{Tries, got, gave_up, waits, retry, tries}

abbrev pub last_of : {E : Type 0} → E → List E → E
last_of e [] = e
last_of e (f ∷ fs) = last_of f fs

module _ {E A : Type 0} where
  abbrev pub failures : List E → List (E ⊎ A)
  failures [] = []
  failures (e ∷ es) = inl e ∷ failures es

  -- What was answered: some failures, and then a value, or one failure too many, or nothing yet.
  unfoldable pub After : E → ℕ → List (E ⊎ A) → Tries E A → Type 0
  After e n answers (got a rest) =
      (fs : List E) × (answers ≡ failures fs ++ inr a ∷ rest) × (length fs < n)
  After e n answers (gave_up e' rest) =
      (fs : List E) × (answers ≡ failures fs ++ rest) × (length fs ≡ n) × (e' ≡ last_of e fs)
  After e n answers waits = (fs : List E) × (answers ≡ failures fs) × (length fs < n)

  After-next :
      (e f : E) (n : ℕ) (answers : List (E ⊎ A)) (t : Tries E A)
      → After f n answers t
      → After e (suc n) (inl f ∷ answers) t
  unfolding After
  After-next e f n answers (got a rest) (fs, h, l) =
      (f ∷ fs, ap (λ x. inl f ∷ x) h, omega (arith, l))
  After-next e f n answers (gave_up g rest) (fs, h, l, last) =
      (f ∷ fs, ap (λ x. inl f ∷ x) h, ap suc l, last)
  After-next e f n answers waits (fs, h, l) = (f ∷ fs, ap (λ x. inl f ∷ x) h, omega (arith, l))

  pub retry-After : (n : ℕ) (e : E) (answers : List (E ⊎ A)) → After e n answers (retry n e answers)
  unfolding retry After
  retry-After zero e answers = ([], refl, refl, refl)
  retry-After (suc n) e [] = ([], refl, omega arith)
  retry-After (suc n) e (inl f ∷ answers) =
      After-next e f n answers (retry n f answers) (retry-After n f answers)
  retry-After (suc n) e (inr a ∷ answers) = ([], refl, omega arith)

  -- The same for the call and its further tries together.
  unfoldable pub Tried : ℕ → List (E ⊎ A) → Tries E A → Type 0
  Tried n answers (got a rest) =
      (fs : List E) × (answers ≡ failures fs ++ inr a ∷ rest) × (length fs ≤ n)
  Tried n answers (gave_up e rest) =
      (f : E) × (fs : List E) × (answers ≡ failures (f ∷ fs) ++ rest)
      × (length (f ∷ fs) ≡ suc n)
      × (e ≡ last_of f fs)
  Tried n answers waits = (fs : List E) × (answers ≡ failures fs) × (length fs ≤ n)

  -- A call returns the first answer that is no failure, if one of the first n + 1 is none; otherwise
  -- it gives up after n + 1 failures, with the last of them, and asks no more.
  pub tries-Tried : (n : ℕ) (answers : List (E ⊎ A)) → Tried n answers (tries n answers)
  unfolding tries retry Tried After
  tries-Tried n [] = ([], refl, omega arith)
  tries-Tried n (inr a ∷ answers) = ([], refl, omega arith)
  tries-Tried n (inl e ∷ answers) = first (retry n e answers) (retry-After n e answers)
    where
      first : (t : Tries E A) → After e n answers t → Tried n (inl e ∷ answers) t
      first (got a rest) (fs, h, l) = (e ∷ fs, ap (λ x. inl e ∷ x) h, l)
      first (gave_up f rest) (fs, h, l, last) = (e, fs, ap (λ x. inl e ∷ x) h, ap suc l, last)
      first waits (fs, h, l) = (e ∷ fs, ap (λ x. inl e ∷ x) h, l)

  pub Tries-cases :
      (t : Tries E A)
      → ((a : A) × (rest : List (E ⊎ A)) × (t ≡ got a rest))
        ⊎ (((e : E) × (rest : List (E ⊎ A)) × (t ≡ gave_up e rest)) ⊎ (t ≡ waits))
  Tries-cases (got a rest) = inl (a, rest, refl)
  Tries-cases (gave_up e rest) = inr (inl (e, rest, refl))
  Tries-cases waits = inr (inr refl)
