-- ===== src/Text.antt =====
-- The parts of Go's strings package that the program calls.
use Prim.Native.String.{◌++◌ as cat, count}
use Prim.Native.String.append
use Prim.Native.String.count
use text.Mathlib.TextLemmas.{length-append}
use edge_q.Prelude.{
  ◌≡◌, refl, ap, ◌∙◌, String, Bool, Bool-cases, true, ◌||◌, inl, inr, ◌==◌, eq_iff, eq_refl, arith,
  if◌then◌else◌,
}

-- `strings.HasSuffix` and `strings.TrimSuffix`
unfoldable pub has_suffix : String → String → Bool
has_suffix String.[] suffix = "" == suffix
has_suffix (String.◌∷◌ c s) suffix = String.◌∷◌ c s == suffix || has_suffix s suffix

unfoldable pub trim_suffix : String → String → String
trim_suffix String.[] suffix = ""
trim_suffix (String.◌∷◌ c s) suffix =
    if String.◌∷◌ c s == suffix then "" else String.◌∷◌ c (trim_suffix s suffix)

pub trim_suffix-cat : (s t : String) → trim_suffix (cat s t) t ≡ s
unfolding trim_suffix
trim_suffix-cat String.[] String.[] = refl
trim_suffix-cat String.[] (String.◌∷◌ c t) =
    ap (λ (x : String). trim_suffix x (String.◌∷◌ c t)) (append.nil (String.◌∷◌ c t))
    ∙ rw (eq_refl (String.◌∷◌ c t))
trim_suffix-cat (String.◌∷◌ c s) t = elim (Bool-cases (String.◌∷◌ c (cat s t) == t)) [
  | inl e ↦
      absurd (omega (arith, count.cons c (cat s t), ap count ((eq_iff _ t).0 e), length-append s t))
  | inr e ↦
      ap (λ (x : String). trim_suffix x t) (append.cons c s t)
      ∙ rw e (ap (String.◌∷◌ c) (trim_suffix-cat s t))
]

pub has_suffix-cat : (s t : String) → has_suffix (cat s t) t ≡ true
unfolding has_suffix
has_suffix-cat String.[] String.[] = refl
has_suffix-cat String.[] (String.◌∷◌ c t) =
    ap (λ (x : String). has_suffix x (String.◌∷◌ c t)) (append.nil (String.◌∷◌ c t))
    ∙ rw (eq_refl (String.◌∷◌ c t))
has_suffix-cat (String.◌∷◌ c s) t =
    ap (λ (x : String). has_suffix x t) (append.cons c s t) ∙ ground (arith, has_suffix-cat s t)
