-- ===== src/Deployment/Names.antt =====
-- The names of pkg/controllers/imdeployment/imdeployment_controller.go: `SafeConcatName`, and the
-- names of the workloads.
use Prim.Native.String.{◌++◌ as cat, count}
use Prim.Native.String.count
use text.Mathlib.TextLemmas.{length-append}
use edge_q.Prelude.{
  ℕ, zero, suc, ◌≤◌, String, ◌≡◌, sym, ap, inl, inr, true, List, [], ◌∷◌, arith, Member, is_some,
}
use edge_q.Maps.{Map, insert, has_key, has_key-insert, lookup-insert_self}
use edge_q.Deployment.{
  ModelNodeSelector, safe_concat_name, unique_name, add_workloads, first_of, join,
}

count-first_of : (n : ℕ) (s : String) → count (first_of n s) ≤ n
unfolding first_of
count-first_of zero s = omega (arith, count.nil)
count-first_of (suc n) String.[] = omega (arith, count.nil)
count-first_of (suc n) (String.◌∷◌ c s) =
    omega (arith, count.cons c (first_of n s), count-first_of n s)

-- The name of an object has at most 63 characters, whatever the names it is made of, where replacing
-- ".-" by "-" makes no text longer.
pub safe_concat_name-bound :
    (digest replace_all : String → String) (name : List String)
    → ((s : String) → count (replace_all s) ≤ count s)
    → count (safe_concat_name digest replace_all name) ≤ 63
unfolding safe_concat_name
safe_concat_name-bound digest replace_all name shorter =
    let full : String = join name in
    let head : String = cat (first_of 52 full) "-" in
    let tail : String = first_of 10 (digest full) in
    ground (
      arith,
      shorter (cat head tail),
      length-append head tail,
      length-append (first_of 52 full) "-",
      count-first_of 52 full,
      count-first_of 10 (digest full),
    )

-- A workload that is there stays there.
has_key-add_workloads :
    (items : List ModelNodeSelector) (m : Map ModelNodeSelector) (w : String)
    → has_key w m ≡ true
    → has_key w (add_workloads items m) ≡ true
unfolding add_workloads
has_key-add_workloads [] m w h = h
has_key-add_workloads (item ∷ items) m w h =
    has_key-add_workloads items (insert (unique_name item) item m) w
      (has_key-insert (unique_name item) w item m h)

-- Every selector has a workload under its name.
pub workloads_complete :
    (items : List ModelNodeSelector) (m : Map ModelNodeSelector) (item : ModelNodeSelector)
    → Member item items
    → has_key (unique_name item) (add_workloads items m) ≡ true
unfolding add_workloads
workloads_complete [] m item within = elim within [ ]
workloads_complete (i ∷ items) m item (inl e) =
    has_key-add_workloads items (insert (unique_name i) i m) (unique_name item)
      (rw (sym (ap unique_name e)) (ap is_some (lookup-insert_self (unique_name i) i m)))
workloads_complete (i ∷ items) m item (inr within) =
    workloads_complete items (insert (unique_name i) i m) item within
