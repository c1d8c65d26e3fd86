-- ===== src/Outcome.antt =====
-- The result of a Go call: a value with a nil error, a non-nil error, or a panic.
use edge_q.Prelude.{◌≡◌, refl, ◌⊎◌, inl, inr, Option, none, some}

pub data Outcome {ℓ κ} (E : Type κ) (A : Type ℓ) : Type (ℓ ⊔ κ) where
  ok : A → Outcome E A
  err : E → Outcome E A
  panic : Outcome E A

infixl 5 ◌>>=◌
abbrev pub ◌>>=◌ {ℓ ι κ} :
    {E : Type κ} {A : Type ℓ} {B : Type ι} → Outcome E A → (A → Outcome E B) → Outcome E B
ok a >>= f = f a
err e >>= f = err e
panic >>= f = panic

-- A nil pointer is dereferenced, or an index is out of range.
abbrev pub or_panic {ℓ κ} : {E : Type κ} {A : Type ℓ} → Option A → Outcome E A
or_panic none = panic
or_panic (some a) = ok a

-- To split on a computed outcome and keep the equation.
pub Outcome-cases {ℓ κ} :
    {E : Type κ} {A : Type ℓ} (o : Outcome E A)
    → ((a : A) × (o ≡ ok a)) ⊎ (((e : E) × (o ≡ err e)) ⊎ (o ≡ panic))
Outcome-cases (ok a) = inl (a, refl)
Outcome-cases (err e) = inr (inl (e, refl))
Outcome-cases panic = inr (inr refl)

pub err_not_ok {ℓ κ} :
    {E : Type κ} {A : Type ℓ} {e : E} {a : A} → ¬ (◌≡◌ {A = Outcome E A} (err e) (ok a))
err_not_ok h = cc

pub panic_not_ok {ℓ κ} : {E : Type κ} {A : Type ℓ} {a : A} → ¬ (◌≡◌ {A = Outcome E A} panic (ok a))
panic_not_ok h = cc

-- A chain of calls returned a value: so did its first call, and the rest on that value.
pub >>=-eq-ok {ℓ ι κ} :
    {Failure : Type κ} {First : Type ℓ} {Last : Type ι} (call : Outcome Failure First)
    (rest : First → Outcome Failure Last) {out : Last}
    → (call >>= rest) ≡ ok out
    → (value : First) × (call ≡ ok value) × (rest value ≡ ok out)
>>=-eq-ok call rest returned = elim (Outcome-cases call) [
  | inl (value, e) ↦ (value, e, rw e at returned)
  | inr (inl (failure, e)) ↦ absurd (err_not_ok (rw e at returned))
  | inr (inr e) ↦ absurd (panic_not_ok (rw e at returned))
]

pub ok_inj {ℓ κ} : {E : Type κ} {A : Type ℓ} {a b : A} → ◌≡◌ {A = Outcome E A} (ok a) (ok b) → a ≡ b
ok_inj h = cc
