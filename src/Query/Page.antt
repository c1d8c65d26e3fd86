-- ===== src/Query/Page.antt =====
-- The page of pkg/apiserver/query against the list that it is a part of.
use edge_q.Prelude.{
  ℕ, zero, suc, ◌+◌, ◌-◌, ◌^◌, ◌≤◌, ◌<◌, ◌≡◌, refl, sym, ap, ◌∙◌, inl, inr, Bool, Bool-cases, true,
  Option, some, List, [], ◌∷◌, arith, length, take, drop, leb, ltb, if◌then◌else◌, String,
}
use edge_q.Prelude.Int.{ℤ, pos, negsuc, int64, wrap, sub_ℕ}
use edge_q.Outcome.{ok, panic}
use edge_q.Query.{
  get_valid_pagination, paginate, add_ℤ, slice, new_pagination, no_pagination,
  parse_query_parameter,
}

-- A number that has a signed representation is its own.
int64_small : (n : ℕ) → n < 2 ^ 63 → int64 (pos n) ≡ pos n
unfolding wrap
int64_small n small = ground arith

abbrev end_of : ℕ → ℕ → ℕ → ℕ
end_of total offset limit = if ltb total (offset + limit) then total else offset + limit

sub_zero : (n : ℕ) → sub_ℕ n 0 ≡ pos n
sub_zero n = ground arith

leb-true : (a b : ℕ) → a ≤ b → leb a b ≡ true
leb-true a b h = ground arith

end_small :
    (offset limit : ℕ)
    → offset + limit < 2 ^ 63
    → int64 (add_ℤ (pos offset) (pos limit)) ≡ pos (offset + limit)
end_small offset limit fits =
    ap int64 (sub_zero (offset + limit)) ∙ int64_small (offset + limit) fits

within_total :
    (limit offset total : ℕ)
    → offset + limit < 2 ^ 63
    → offset ≤ total
    → get_valid_pagination (new_pagination (pos limit) (pos offset)) (pos total)
      ≡ (pos offset, pos (end_of total offset limit))
unfolding get_valid_pagination new_pagination no_pagination
within_total limit offset total fits h = rw (end_small offset limit fits) (ground arith)

past_total :
    (limit offset total : ℕ)
    → total < offset
    → get_valid_pagination (new_pagination (pos limit) (pos offset)) (pos total) ≡ (pos 0, pos 0)
unfolding get_valid_pagination new_pagination no_pagination
past_total limit offset total h = ground arith

overflowing :
    (total : ℕ)
    → 2 ≤ total
    → get_valid_pagination (new_pagination (pos (2 ^ 63 - 1)) (pos 2)) (pos total)
      ≡ (pos 2, negsuc (2 ^ 63 - 2))
unfolding get_valid_pagination new_pagination no_pagination wrap
overflowing total two = ground arith

module _ {ℓ} {A : Type ℓ} where
  length-drop : (n : ℕ) (xs : List A) → length (drop n xs) ≡ length xs - n
  length-drop zero xs = omega arith
  length-drop (suc n) [] = omega arith
  length-drop (suc n) (x ∷ xs) = omega (arith, length-drop n xs)

  take_all : (n : ℕ) (xs : List A) → length xs ≤ n → take n xs ≡ xs
  take_all zero [] h = refl
  take_all zero (x ∷ xs) h = absurd (omega arith)
  take_all (suc n) [] h = refl
  take_all (suc n) (x ∷ xs) h = ap (λ (ys : List A). x ∷ ys) (take_all n xs (omega arith))

  drop_past : (n : ℕ) (xs : List A) → length xs ≤ n → drop n xs ≡ []
  drop_past zero [] h = refl
  drop_past zero (x ∷ xs) h = absurd (omega arith)
  drop_past (suc n) [] h = refl
  drop_past (suc n) (x ∷ xs) h = drop_past n xs (omega arith)

  take_none : (n : ℕ) → ◌≡◌ {A = List A} (take n []) []
  take_none zero = refl
  take_none (suc n) = refl

  clipped :
      (limit offset : ℕ) (objects : List A)
      → take (end_of (length objects) offset limit - offset) (drop offset objects)
        ≡ take limit (drop offset objects)
  clipped limit offset objects = elim (Bool-cases (ltb (length objects) (offset + limit))) [
    | inl e ↦ rw e (
        take_all (length objects - offset) (drop offset objects)
          (omega (arith, length-drop offset objects))
        ∙ sym (take_all limit (drop offset objects) (ground (arith, length-drop offset objects))))
    | inr e ↦ rw e (ap (λ (n : ℕ). take n (drop offset objects)) (omega arith))
  ]

  slice_within :
      (i j : ℕ) (objects : List A)
      → i ≤ j
      → j ≤ length objects
      → slice objects (pos i) (pos j) ≡ ok (take (j - i) (drop i objects))
  unfolding slice
  slice_within i j objects h g = rw (leb-true i j h, leb-true j (length objects) g) refl

  -- The page is the reference one: the limit's objects after the offset's, as many as there are, and
  -- none past the end. The end of the page does not overflow.
  pub paginate-page :
      (limit offset : ℕ) (objects : List A)
      → offset + limit < 2 ^ 63
      → paginate (some (new_pagination (pos limit) (pos offset))) objects
        ≡ ok (take limit (drop offset objects))
  unfolding paginate slice
  paginate-page limit offset objects fits = elim (Bool-cases (leb offset (length objects))) [
    | inl e ↦ rw (within_total limit offset (length objects) fits (ground arith)) (
        slice_within offset (end_of (length objects) offset limit) objects (ground arith)
          (ground arith)
        ∙ ap ok (clipped limit offset objects))
    | inr e ↦ rw (past_total limit offset (length objects) (ground arith)) (
        slice_within 0 0 objects (ground arith) (ground arith)
        ∙ ap ok (sym (ap (take limit) (drop_past offset objects (ground arith)) ∙ take_none limit)))
  ]

  -- A request for page -1 with the largest limit: the offset wraps to 2 and the end of the page to a
  -- negative number, and the slice of two or more objects panics.
  pub page_overflows :
      (atoi : String → Option ℤ) (parse_bool : String → Option Bool) (param : String → String)
      (url : List (String × List String)) (objects : List A)
      → atoi (param "limit") ≡ some (pos (2 ^ 63 - 1))
      → atoi (param "page") ≡ some (negsuc 0)
      → 2 ≤ length objects
      → paginate (parse_query_parameter atoi parse_bool param url).pagination objects ≡ panic
  unfolding paginate slice parse_query_parameter new_pagination get_valid_pagination no_pagination
      wrap
  page_overflows atoi parse_bool param url objects l p two =
      rw (l, p) (ap (λ (r : ℤ × ℤ). slice objects r.0 r.1) (overflowing (length objects) two))
