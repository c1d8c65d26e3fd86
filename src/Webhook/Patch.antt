-- ===== src/Webhook/Patch.antt =====
-- internal/controller/webhook.go, `addContainer`, `addVolume`, `updateAnnotation` and
-- `escapeJSONPointerValue`: the JSON patch that injects a sidecar, and what a patch means by RFC 6902
-- and RFC 6901.
use Prim.Native.Char.{Char, code}
use Prim.Native.String.{◌++◌ as cat, count}
use mathlib.Core.List.{append_assoc, append-nil}
use mathlib.Core.Option
use text.Mathlib.TextLemmas.{length-append}
use text.Mathlib.TextEquality.{Char-path}
use edge_q.Prelude.{
  ℕ, String, ◌≡◌, refl, sym, ap, ◌∙◌, Bool, Bool-cases, true, false, inl, inr, Option, none, some,
  List, [], ◌∷◌, ◌++◌, ◌==◌, eq_iff, eq_refl, arith, eqb, if◌then◌else◌,
}
use edge_q.Maps.{Map}
use edge_q.K8s.{Container, Volume, value_at}

-- A value of a patch: one element, a list, a text, or an object of texts.
pub data PatchValue (A : Type 0) : Type 0 where
  one : A → PatchValue A
  list : List A → PatchValue A
  plain : String → PatchValue A
  object : Map String → PatchValue A

pub record PatchOperation (A : Type 0) : Type 0 where
  pub op : String
  pub path : String
  pub value : PatchValue A

module _ {A : Type 0} where
  -- The loop of `addContainer` and of `addVolume`, which are the same code at two types.
  unfoldable pub add_each : Bool → String → List A → List (PatchOperation A)
  add_each first base_path [] = []
  add_each first base_path (add ∷ added) =
      (if first
        then record { op = "add"; path = base_path; value = list (add ∷ []) }
        else record { op = "add"; path = cat base_path "/-"; value = one add })
      ∷ add_each false base_path added

  unfoldable pub is_empty : List A → Bool
  is_empty [] = true
  is_empty (x ∷ xs) = false

unfoldable pub add_container :
    List Container → List Container → String → List (PatchOperation Container)
unfolding is_empty
add_container target added base_path = add_each (is_empty target) base_path added

unfoldable pub add_volume : List Volume → List Volume → String → List (PatchOperation Volume)
unfolding is_empty
add_volume target added base_path = add_each (is_empty target) base_path added

-- `strings.Replace(in, c, a + b, -1)` of one character by two.
replace_char : ℕ → Char → Char → String → String
replace_char c a b String.[] = ""
replace_char c a b (String.◌∷◌ d s) =
    if eqb (code d) c
    then String.◌∷◌ a (String.◌∷◌ b (replace_char c a b s))
    else String.◌∷◌ d (replace_char c a b s)

unfoldable pub escape_json_pointer_value : String → String
unfolding replace_char
escape_json_pointer_value in_ = replace_char b'/' "~" "1" (replace_char b'~' "~" "0" in_)

-- `added` stands in the order in which the map is visited.
unfoldable pub update_annotation :
    Option (Map String) → List (String × String) → List (PatchOperation String)
update_annotation target [] = []
update_annotation none ((key, value) ∷ added) =
    record { op = "add"; path = "/metadata/annotations"; value = object ((key, value) ∷ []) }
    ∷ update_annotation none added
update_annotation (some target) ((key, value) ∷ added) =
    record {
      op = if value_at key target == "" then "add" else "replace";
      path = cat "/metadata/annotations/" (escape_json_pointer_value key);
      value = plain value;
    }
    ∷ update_annotation (some target) added

longer : (base : String) → (cat base "/-" == base) ≡ false
longer base = elim (Bool-cases (cat base "/-" == base)) [
  | inl e ↦
      absurd (omega (arith, ap count ((eq_iff (cat base "/-") base).0 e), length-append base "/-"))
  | inr e ↦ e
]

module _ {A : Type 0} where
  -- A list that is a member of the document; an empty one is omitted.
  abbrev pub member : List A → Option (List A)
  member [] = none
  member (x ∷ xs) = some (x ∷ xs)

  -- "add" of RFC 6902 at the member itself, and at the end of a list that is there.
  pub apply : String → PatchOperation A → Option (List A) → Option (Option (List A))
  apply base p doc =
      if p.op == "add"
      then (if p.path == base
          then put p.value
          else if p.path == cat base "/-"
          then push p.value doc
          else none)
      else none
    where
      put : PatchValue A → Option (Option (List A))
      put (list xs) = some (some xs)
      put _ = none

      push : PatchValue A → Option (List A) → Option (Option (List A))
      push (one x) (some xs) = some (some (xs ++ x ∷ []))
      push _ _ = none

  pub apply_all : String → List (PatchOperation A) → Option (List A) → Option (Option (List A))
  apply_all base [] doc = some doc
  apply_all base (p ∷ ps) doc = elim (apply base p doc) [
    | none ↦ none
    | some doc' ↦ apply_all base ps doc'
  ]

  apply_push :
      (base : String) (x : A) (xs : List A)
      → apply base (record { op = "add"; path = cat base "/-"; value = one x }) (some xs)
        ≡ some (some (xs ++ x ∷ []))
  unfolding apply
  apply_push base x xs = ground (arith, longer base, eq_refl (cat base "/-"))

  apply_put :
      (base : String) (xs : List A) (doc : Option (List A))
      → apply base (record { op = "add"; path = base; value = list xs }) doc ≡ some (some xs)
  unfolding apply
  apply_put base xs doc = ground (arith, eq_refl base)

  apply_rest :
      (base : String) (x : A) (xs added : List A)
      → apply_all base (add_each false base added) (some (x ∷ xs)) ≡ some (some (x ∷ xs ++ added))
  unfolding apply_all add_each
  apply_rest base x xs [] = rw append-nil
  apply_rest base x xs (y ∷ added) =
      rw (apply_push base y (x ∷ xs), apply_all)
        (apply_rest base x (xs ++ y ∷ []) added
          ∙ ap (λ (l : List A). some (some (x ∷ l))) (append_assoc xs (y ∷ []) added))

  add_each_appends :
      (base : String) (target added : List A)
      → apply_all base (add_each (is_empty target) base added) (member target)
        ≡ some (member (target ++ added))
  unfolding apply_all add_each is_empty
  add_each_appends base [] [] = refl
  add_each_appends base [] (y ∷ added) =
      rw (apply_put base (y ∷ []) none, apply_all) (apply_rest base y [] added)
  add_each_appends base (x ∷ xs) added = apply_rest base x xs added

-- Applied by the rules of RFC 6902, the patch of `addContainer` turns the containers of the document
-- into those containers followed by the added ones, and that of `addVolume` the volumes likewise, also
-- where the list was empty and so was no member of the document, and where nothing is added.
pub add_container_appends :
    (base : String) (containers containers' : List Container) (volumes volumes' : List Volume)
    → (apply_all base (add_container containers containers' base) (member containers)
        ≡ some (member (containers ++ containers')))
      × (apply_all base (add_volume volumes volumes' base) (member volumes)
          ≡ some (member (volumes ++ volumes')))
unfolding add_container add_volume
add_container_appends base containers containers' volumes volumes' =
    (add_each_appends base containers containers', add_each_appends base volumes volumes')

-- RFC 6901: "~1" stands for "/" and "~0" for "~"; no other "~" may stand in a reference token.
pub unescape : String → Option String
unescape String.[] = some ""
unescape (String.◌∷◌ c String.[]) = if eqb (code c) b'~' then none else some (String.◌∷◌ c "")
unescape (String.◌∷◌ c (String.◌∷◌ d s)) =
    let rest = Option.map (String.◌∷◌ c) (unescape (String.◌∷◌ d s)) in
    let tilde = Option.map (String.◌∷◌ "~") (unescape s) in
    let slash = Option.map (String.◌∷◌ "/") (unescape s) in
    if eqb (code c) b'~'
    then (if eqb (code d) b'0' then tilde else if eqb (code d) b'1' then slash else none)
    else rest

-- One character, escaped at once.
escape_both : String → String
escape_both String.[] = ""
escape_both (String.◌∷◌ c s) =
    if eqb (code c) b'~'
    then String.◌∷◌ "~" (String.◌∷◌ "0" (escape_both s))
    else if eqb (code c) b'/'
    then String.◌∷◌ "~" (String.◌∷◌ "1" (escape_both s))
    else String.◌∷◌ c (escape_both s)

escape-both : (s : String) → escape_json_pointer_value s ≡ escape_both s
unfolding escape_json_pointer_value escape_both
escape-both String.[] = refl
escape-both (String.◌∷◌ c s) = ground (arith, escape-both s)

unescape-cons :
    (c : Char) (t : String)
    → eqb (code c) b'~' ≡ false
    → unescape (String.◌∷◌ c t) ≡ Option.map (String.◌∷◌ c) (unescape t)
unfolding unescape Option.map
unescape-cons c String.[] h = rw h
unescape-cons c (String.◌∷◌ d t) h = rw h

tilde_or_slash : (c d : Char) → eqb (code c) (code d) ≡ true → d ≡ c
tilde_or_slash c d h = sym (Char-path c d (ground arith))

unescape-both : (s : String) → unescape (escape_both s) ≡ some s
unfolding unescape escape_both
unescape-both String.[] = refl
unescape-both (String.◌∷◌ c s) = elim (Bool-cases (eqb (code c) b'~')) [
  | inl tilde ↦
      rw tilde (
        rw (unescape-both s)
          (ap (λ (d : Char). some (String.◌∷◌ d s)) (tilde_or_slash c "~" tilde)))
  | inr other ↦ rw other (elim (Bool-cases (eqb (code c) b'/')) [
    | inl slash ↦ rw slash (
        rw (unescape-both s)
          (ap (λ (d : Char). some (String.◌∷◌ d s)) (tilde_or_slash c "/" slash)))
    | inr neither ↦
        rw neither
          (unescape-cons c (escape_both s) other ∙ ap (Option.map (String.◌∷◌ c)) (unescape-both s))
  ])
]

-- Every annotation key comes back from its reference token.
pub unescape-escape : (s : String) → unescape (escape_json_pointer_value s) ≡ some s
unescape-escape s = ap unescape (escape-both s) ∙ unescape-both s
