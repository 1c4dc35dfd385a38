-- ===== src/FilterPath/Kept.antt =====
-- What `filterValue` and `apply` write (http_filterpath.go).
use osmem.Prelude.{
  Bool, true, false, ◌||◌, Option, some, none, List, [], ◌∷◌, ◌++◌, ◌≡◌, refl, sym, ap, ap₂, ◌∙◌,
  if◌then◌else◌,
}
use osmem.FilterPath.{
  Json, Fields, Items, scalar, object, array, no_field, field, no_item, item, Cursor, evaluate,
  is_field, filter_value, filter_fields, filter_items, FilterPath, is_object, pass, then_exclude,
  apply,
}
use osmem.FilterPath.Covers.{any_covers, covers_below, evaluate-covers, uncovered}
use osmem.FilterPath.Leaves.{
  Leaf, under, leaves, field_leaves, item_leaves, agrees, chosen, chosen-append, chosen-under,
  chosen-ext, kept_leaves, put_field-leaves, written_object, written_array, put_item, scalar_chosen,
}

-- A value, an object's fields, an array's items: what is written are the chosen leaves.
mutual
  unfolding leaves filter_value any_covers

  filter_value-leaves :
      (v : Json) (cursors : List Cursor) (inclusive : Bool)
      → kept_leaves (filter_value v cursors inclusive)
        ≡ chosen inclusive (any_covers cursors) (leaves v)
  filter_value-leaves (scalar s) cursors inclusive =
      scalar_chosen s inclusive
      ∙ ap (λ b. if agrees inclusive b then ([], s) ∷ [] else []) (sym (uncovered cursors))
  filter_value-leaves (object fields) cursors inclusive =
      written_object (filter_fields fields cursors inclusive)
      ∙ filter_fields-leaves fields cursors inclusive
  filter_value-leaves (array items) cursors inclusive =
      written_array (filter_items items cursors inclusive)
      ∙ filter_items-leaves items cursors inclusive

  filter_fields-leaves :
      (fields : Fields) (cursors : List Cursor) (inclusive : Bool)
      → field_leaves (filter_fields fields cursors inclusive)
        ≡ chosen inclusive (any_covers cursors) (field_leaves fields)
  filter_fields-leaves no_field cursors inclusive = refl
  filter_fields-leaves (field name child rest) cursors inclusive =
      put_field-leaves inclusive name child (λ next. filter_value child next inclusive)
        (evaluate name cursors) (filter_fields rest cursors inclusive)
        (λ next. filter_value-leaves child next inclusive)
      ∙ ap₂ (λ (a b : List Leaf). a ++ b)
          (ap (under name) (
              chosen-ext inclusive (covers_below (evaluate name cursors))
                (λ names. any_covers cursors (name ∷ names)) (leaves child)
                (λ names. sym (evaluate-covers name cursors names)))
            ∙ sym (chosen-under inclusive (any_covers cursors) name (leaves child)))
          (filter_fields-leaves rest cursors inclusive)
      ∙ sym (
          chosen-append inclusive (any_covers cursors) (under name (leaves child))
            (field_leaves rest))

  filter_items-leaves :
      (items : Items) (cursors : List Cursor) (inclusive : Bool)
      → item_leaves (filter_items items cursors inclusive)
        ≡ chosen inclusive (any_covers cursors) (item_leaves items)
  filter_items-leaves no_item cursors inclusive = refl
  filter_items-leaves (item v rest) cursors inclusive =
      put_item (filter_value v cursors inclusive) (filter_items rest cursors inclusive)
      ∙ ap₂ (λ (a b : List Leaf). a ++ b) (filter_value-leaves v cursors inclusive)
          (filter_items-leaves rest cursors inclusive)
      ∙ sym (chosen-append inclusive (any_covers cursors) (leaves v) (item_leaves rest))

-- The leaves of a body that may be missing.
abbrev pub written : Option Json → List Leaf
written none = []
written (some v) = leaves v

-- One kind of filters: none of them leaves everything.
abbrev pub selected : Bool → List Cursor → List Leaf → List Leaf
selected inclusive [] all = all
selected inclusive (c ∷ cursors) all = chosen inclusive (any_covers (c ∷ cursors)) all

pass_other :
    (inclusive : Bool) (cursors : List Cursor) (v : Json)
    → written (pass false inclusive cursors v) ≡ selected inclusive cursors (leaves v)
pass_other inclusive [] v = refl
pass_other inclusive (c ∷ cursors) v =
    if_kept (filter_value v (c ∷ cursors) inclusive) ∙ filter_value-leaves v (c ∷ cursors) inclusive
  where
    if_kept :
        (r : Json × Bool)
        → written (let (filtered, kept) = r in if kept || false then some filtered else none)
          ≡ kept_leaves r
    if_kept (v, true) = refl
    if_kept (v, false) = refl

selected_nothing : (inclusive : Bool) (cursors : List Cursor) → selected inclusive cursors [] ≡ []
selected_nothing inclusive [] = refl
selected_nothing inclusive (c ∷ cursors) = refl

always : (b : Bool) (v : Json) → (if b || true then some v else none) ≡ some v
always true v = refl
always false v = refl

pass_object :
    (inclusive : Bool) (cursors : List Cursor) (fields : Fields)
    → (out : Fields) × (pass true inclusive cursors (object fields) ≡ some (object out))
      × (field_leaves out ≡ selected inclusive cursors (field_leaves fields))
unfolding filter_value
pass_object inclusive [] fields = (fields, refl, refl)
pass_object inclusive (c ∷ cursors) fields =
    let out = filter_fields fields (c ∷ cursors) inclusive in
    (out, always (is_field out) (object out), filter_fields-leaves fields (c ∷ cursors) inclusive)

other_root :
    (fp : FilterPath) (v : Json)
    → is_object v ≡ false
    → written (apply fp v) ≡ selected false fp.exclude (selected true fp.include (leaves v))
unfolding apply
other_root fp v e =
    ap (λ b. written (then_exclude b fp.exclude (pass b true fp.include v))) e
    ∙ second (pass false true fp.include v)
    ∙ ap (selected false fp.exclude) (pass_other true fp.include v)
  where
    second :
        (o : Option Json)
        → written (then_exclude false fp.exclude o) ≡ selected false fp.exclude (written o)
    second none = sym (selected_nothing false fp.exclude)
    second (some u) = pass_other false fp.exclude u

-- What is left of a body after `apply` are the scalars that some including filter covers, if there
-- are any including filters, and no excluding filter does.
pub apply-leaves :
    (fp : FilterPath) (v : Json)
    → written (apply fp v) ≡ selected false fp.exclude (selected true fp.include (leaves v))
unfolding apply leaves
apply-leaves fp (scalar s) = other_root fp (scalar s) refl
apply-leaves fp (array items) = other_root fp (array items) refl
apply-leaves fp (object fields) =
    let (out, passed, kept) = pass_object true fp.include fields in
    let (end, ended, left) = pass_object false fp.exclude out in
    ap (λ o. written (then_exclude true fp.exclude o)) passed
    ∙ ap written ended
    ∙ left
    ∙ ap (selected false fp.exclude) kept
