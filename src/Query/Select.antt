-- ===== src/Query/Select.antt =====
-- pkg/apiserver/query/processor.go: the objects that a query selects, and their order.
use edge_q.Prelude.{
  String, ◌≡◌, refl, sym, inl, inr, Bool, Bool-cases, true, false, not, List, [], ◌∷◌, arith, ◌==◌,
  eq_iff, ◌↔◌, Member, if◌then◌else◌,
}
use edge_q.Maps.{Map}

-- What the processor reads of an object's meta data, and the functions of libraries that it calls.
pub record ObjectMeta : Type 0 where
  pub name : String
  pub namespace : String
  pub labels : Map String
  pub created : String

pub record Texts : Type 0 where
  -- `strings.Split(s, ",")`, `strings.Contains`, and the parse and the match of a label selector
  pub split : String → List String
  pub contains_text : String → String → Bool
  pub label_match : Map String → String → Bool
  -- `strings.Compare(a, b) > 0`, and `a.After(b)` on times
  pub is_greater : String → String → Bool
  pub is_after : String → String → Bool

named_in : String → List String → Bool
named_in item [] = false
named_in item (name ∷ names) = if item == name then true else named_in item names

unfoldable pub default_object_meta_filter : Texts → ObjectMeta → String × String → Bool
unfolding named_in
default_object_meta_filter t item (field, value) =
    if field == "names"
    then named_in item.name (t.split value)
    else if field == "name"
    then t.contains_text item.name value
    else if field == "namespace"
    then item.namespace == value
    else if field == "label"
    then t.label_match item.labels value
    else true

by_time : Texts → ObjectMeta → ObjectMeta → Bool
by_time t left right =
    if left.created == right.created
    then t.is_greater left.name right.name
    else t.is_after left.created right.created

unfoldable pub default_object_meta_compare : Texts → ObjectMeta → ObjectMeta → String → Bool
unfolding by_time
default_object_meta_compare t left right sort_by =
    if sort_by == "name"
    then t.is_greater left.name right.name
    else if sort_by == "namespace"
    then t.is_greater left.namespace right.namespace
    else by_time t left right

module _ {A : Type 0} where
  -- The filters hold, in the order in which the map is visited.
  unfoldable pub selects : (A → String × String → Bool) → List (String × String) → A → Bool
  selects filter_func [] object = true
  selects filter_func (f ∷ filters) object =
      if filter_func object f then selects filter_func filters object else false

  unfoldable pub transform : List (A → A) → A → A
  transform [] object = object
  transform (f ∷ fs) object = transform fs (f object)

  filtered : (A → String × String → Bool) → List (String × String) → List (A → A) → List A → List A
  unfolding selects transform
  filtered filter_func filters fs [] = []
  filtered filter_func filters fs (object ∷ objects) =
      let rest : List A = filtered filter_func filters fs objects in
      if selects filter_func filters object then transform fs object ∷ rest else rest

  unfoldable pub less : (A → A → String → Bool) → Bool → String → A → A → Bool
  less compare_func ascending sort_by a b =
      if ascending then not (compare_func a b sort_by) else compare_func a b sort_by

  -- `sort.Slice` is the argument `sort_slice`.
  unfoldable pub filter_and_sort :
      ((A → A → Bool) → List A → List A)
      → (A → A → String → Bool)
      → (A → String × String → Bool)
      → List (A → A)
      → Bool
      → String
      → List (String × String)
      → List A
      → List A
  unfolding filtered less
  filter_and_sort sort_slice compare_func filter_func fs ascending sort_by filters objects =
      sort_slice (less compare_func ascending sort_by) (filtered filter_func filters fs objects)

  filtered-Member :
      (filter_func : A → String × String → Bool) (filters : List (String × String))
      (fs : List (A → A)) (objects : List A) (b : A)
      → Member b (filtered filter_func filters fs objects)
      → (a : A) × Member a objects × (selects filter_func filters a ≡ true) × (transform fs a ≡ b)
  unfolding filtered
  filtered-Member ff filters fs [] b m = elim m [ ]
  filtered-Member ff filters fs (o ∷ objects) b m = elim (Bool-cases (selects ff filters o)) [
    | inl e ↦ elim (rw e at m) [
      | inl here ↦ (o, inl refl, e, here)
      | inr there ↦
          let (a, within, s, t) = filtered-Member ff filters fs objects b there in
          (a, inr within, s, t)
    ]
    | inr e ↦
        let (a, within, s, t) = filtered-Member ff filters fs objects b (rw e at m) in
        (a, inr within, s, t)
  ]

  Member-filtered :
      (filter_func : A → String × String → Bool) (filters : List (String × String))
      (fs : List (A → A)) (objects : List A) (a : A)
      → Member a objects
      → selects filter_func filters a ≡ true
      → Member (transform fs a) (filtered filter_func filters fs objects)
  unfolding filtered
  Member-filtered ff filters fs [] a m h = elim m [ ]
  Member-filtered ff filters fs (o ∷ objects) a (inl e) h = rw (e, h) (inl refl)
  Member-filtered ff filters fs (o ∷ objects) a (inr m) h =
      elim (Bool-cases (selects ff filters o)) [
        | inl e ↦ rw e (inr (Member-filtered ff filters fs objects a m h))
        | inr e ↦ rw e (Member-filtered ff filters fs objects a m h)
      ]

  -- The result holds the selected objects, transformed, and no other, where sorting keeps the members
  -- of a list.
  pub filter_and_sort-Member :
      (sort_slice : (A → A → Bool) → List A → List A) (compare_func : A → A → String → Bool)
      (filter_func : A → String × String → Bool) (fs : List (A → A)) (ascending : Bool)
      (sort_by : String) (filters : List (String × String)) (objects : List A) (b : A)
      → ((f : A → A → Bool) (xs : List A) (x : A) → Member x (sort_slice f xs) ↔ Member x xs)
      → Member b
          (filter_and_sort sort_slice compare_func filter_func fs ascending sort_by filters objects)
        ↔ ((a : A) × Member a objects
            × (selects filter_func filters a ≡ true)
            × (transform fs a ≡ b))
  unfolding filter_and_sort
  filter_and_sort-Member sort_slice cf ff fs ascending sort_by filters objects b keeps =
      let k = keeps (less cf ascending sort_by) (filtered ff filters fs objects) b in
      (
        λ m. filtered-Member ff filters fs objects b (k.0 m),
        λ (a, within, s, t). k.1 (rw (sym t) (Member-filtered ff filters fs objects a within s)),
      )

-- The order of the objects is asymmetric, whatever they are sorted by, where those of texts and of
-- times are.
pub default_object_meta_compare-asym :
    (t : Texts) (left right : ObjectMeta) (sort_by : String)
    → ((a b : String) → t.is_greater a b ≡ true → t.is_greater b a ≡ false)
    → ((a b : String) → t.is_after a b ≡ true → t.is_after b a ≡ false)
    → default_object_meta_compare t left right sort_by ≡ true
    → default_object_meta_compare t right left sort_by ≡ false
unfolding default_object_meta_compare by_time
default_object_meta_compare-asym t left right sort_by greater later h = ground (
  arith,
  greater left.name right.name,
  greater left.namespace right.namespace,
  later left.created right.created,
  eq_iff left.created right.created,
  eq_iff right.created left.created,
  Bool-cases (sort_by == "name"),
  Bool-cases (sort_by == "namespace"),
)
