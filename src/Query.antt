-- ===== src/Query.antt =====
-- pkg/apiserver/query: the query of a list request, and the page of objects that it selects. An `int`
-- has 64 bits: where the source adds or multiplies, the result is wrapped.
pub mod Page
pub mod Select
use edge_q.Prelude.{
  ℕ, ◌+◌, ◌-◌, ◌*◌, String, Bool, true, false, not, ◌&&◌, ◌||◌, Option, none, some, List, [], ◌∷◌,
  ◌++◌, ◌==◌, length, take, drop, leb, ltb, if◌then◌else◌,
}
use edge_q.Prelude.Int.{ℤ, pos, negsuc, sub_ℕ, ltb_ℤ, leb_ℤ, eqb_ℤ, int64, pos_part, neg_part}
use edge_q.Outcome.{Outcome, ok, err, panic}
use edge_q.Config.{Error}
use edge_q.Maps.{Map, insert}
use edge_q.Utils.{has_string}

pub record Pagination : Type 0 where
  pub limit : ℤ
  pub offset : ℤ

pub record Query : Type 0 where
  pub pagination : Option Pagination
  pub sort_by : String
  pub ascending : Bool
  pub filters : Map String
  pub label_selector : String

unfoldable pub new_pagination : ℤ → ℤ → Pagination
new_pagination limit offset = record { limit = limit; offset = offset }

unfoldable pub no_pagination : Pagination
no_pagination = new_pagination (negsuc 0) (pos 0)

abbrev pub add_ℤ : ℤ → ℤ → ℤ
add_ℤ a b = sub_ℕ (pos_part a + pos_part b) (neg_part a + neg_part b)

abbrev pub mul_ℤ : ℤ → ℤ → ℤ
mul_ℤ a b =
    sub_ℕ (pos_part a * pos_part b + neg_part a * neg_part b)
      (pos_part a * neg_part b + neg_part a * pos_part b)

-- The first index of the page and the one after its last.
unfoldable pub get_valid_pagination : Pagination → ℤ → ℤ × ℤ
get_valid_pagination p total =
    if eqb_ℤ p.limit no_pagination.limit
    then (pos 0, total)
    else if ltb_ℤ p.limit (pos 0) || (ltb_ℤ p.offset (pos 0) || ltb_ℤ total p.offset)
    then (pos 0, pos 0)
    else (let end_index : ℤ = int64 (add_ℤ p.offset p.limit) in
        (p.offset, (if ltb_ℤ total end_index then total else end_index)))

unfoldable pub new : Query
new = record {
  pagination = some no_pagination;
  sort_by = "";
  ascending = false;
  filters = [];
  label_selector = "";
}

unfoldable pub default_string : String → String → String
default_string value default_value = if value == "" then default_value else value

abbrev or_else {ℓ} : {A : Type ℓ} → Option A → A → A
or_else none a = a
or_else (some b) a = b

add_values : String → List String → Map String → Map String
add_values key [] m = m
add_values key (value ∷ values) m = add_values key values (insert key value m)

-- The parameters of a URL, in the order in which the map is visited.
add_filters : List (String × List String) → Map String → Map String
unfolding add_values
add_filters [] m = m
add_filters ((key, values) ∷ more) m =
    if has_string ("page" ∷ "limit" ∷ "sortBy" ∷ "ascending" ∷ "labelSelector" ∷ []) key
    then add_filters more m
    else add_filters more (add_values key values m)

-- `strconv.Atoi` and `strconv.ParseBool` are the functions `atoi` and `parse_bool`, none for an error;
-- `param` is `request.QueryParameter`.
unfoldable pub parse_query_parameter :
    (String → Option ℤ)
    → (String → Option Bool)
    → (String → String)
    → List (String × List String)
    → Query
unfolding or_else add_filters
parse_query_parameter atoi parse_bool param url =
    let limit : ℤ = or_else (atoi (param "limit")) (negsuc 0) in
    let page : ℤ = or_else (atoi (param "page")) (pos 1) in
    record {
      pagination =
          some (new_pagination limit (int64 (mul_ℤ (int64 (add_ℤ page (negsuc 0))) limit)));
      sort_by = default_string (param "sortBy") "creationTimestamp";
      ascending = or_else (parse_bool (default_string (param "ascending") "false")) false;
      filters = add_filters url [];
      label_selector = param "labelSelector";
    }

-- `objects[start:end]`; the capacity of the slice is its length.
unfoldable pub slice {ℓ} : {A : Type ℓ} → List A → ℤ → ℤ → Outcome Error (List A)
slice objects (pos i) (pos j) =
    if leb i j && leb j (length objects) then ok (take (j - i) (drop i objects)) else panic
slice objects i j = panic

-- `Processor.Pagination`
unfoldable pub paginate {ℓ} : {A : Type ℓ} → Option Pagination → List A → Outcome Error (List A)
paginate pagination objects =
    let p : Pagination = or_else pagination no_pagination in
    let (first, last) = get_valid_pagination p (pos (length objects)) in slice objects first last
