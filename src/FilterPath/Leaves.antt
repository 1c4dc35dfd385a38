-- ===== src/FilterPath/Leaves.antt =====
-- The scalars of a value, and those that a filter chooses (http_filterpath.go).
use osmem.Prelude.{
  Bool, true, false, not, List, [], ◌∷◌, ◌++◌, ◌≡◌, refl, sym, ap, ap₂, ◌∙◌, arith, if◌then◌else◌,
}
use osmem.Glob.{Bytes}
use osmem.FilterPath.{
  Json, Fields, Items, scalar, object, array, no_field, field, no_item, item, Cursor, Verdict,
  goes_on, matched, is_field, is_item, put_field,
}
use osmem.FilterPath.Covers.{any_covers, covers_below}

-- The scalars of a value, each with the names above it.
abbrev pub Leaf : Type 0
Leaf = List Bytes × Bytes

abbrev pub under : Bytes → List Leaf → List Leaf
under name [] = []
under name (leaf ∷ leaves) = (name ∷ leaf.0, leaf.1) ∷ under name leaves

unfoldable mutual
  pub leaves : Json → List Leaf
  leaves (scalar s) = ([], s) ∷ []
  leaves (object fields) = field_leaves fields
  leaves (array items) = item_leaves items

  pub field_leaves : Fields → List Leaf
  field_leaves no_field = []
  field_leaves (field name v rest) = under name (leaves v) ++ field_leaves rest

  pub item_leaves : Items → List Leaf
  item_leaves no_item = []
  item_leaves (item v rest) = leaves v ++ item_leaves rest

abbrev pub agrees : Bool → Bool → Bool
agrees true b = b
agrees false b = not b

-- The leaves that are covered, or those that are not.
abbrev pub chosen : Bool → (List Bytes → Bool) → List Leaf → List Leaf
chosen inclusive test [] = []
chosen inclusive test (leaf ∷ leaves) =
    let later = chosen inclusive test leaves in
    if agrees inclusive (test leaf.0) then leaf ∷ later else later

pub chosen-append :
    (inclusive : Bool) (test : List Bytes → Bool) (a b : List Leaf)
    → chosen inclusive test (a ++ b) ≡ chosen inclusive test a ++ chosen inclusive test b
chosen-append inclusive test [] b = refl
chosen-append inclusive test (leaf ∷ a) b = ground (arith, chosen-append inclusive test a b)

pub chosen-under :
    (inclusive : Bool) (test : List Bytes → Bool) (name : Bytes) (a : List Leaf)
    → chosen inclusive test (under name a)
      ≡ under name (chosen inclusive (λ names. test (name ∷ names)) a)
chosen-under inclusive test name [] = refl
chosen-under inclusive test name (leaf ∷ a) = ground (arith, chosen-under inclusive test name a)

pub chosen-ext :
    (inclusive : Bool) (f g : List Bytes → Bool) (a : List Leaf)
    → ((names : List Bytes) → f names ≡ g names)
    → chosen inclusive f a ≡ chosen inclusive g a
chosen-ext inclusive f g [] e = refl
chosen-ext inclusive f g (leaf ∷ a) e =
    ap₂ (λ (b : Bool) (later : List Leaf). if agrees inclusive b then leaf ∷ later else later)
      (e leaf.0) (chosen-ext inclusive f g a e)

chosen-all : (inclusive : Bool) (a : List Leaf) → chosen inclusive (λ names. inclusive) a ≡ a
chosen-all true [] = refl
chosen-all true (leaf ∷ a) = ap (λ later. leaf ∷ later) (chosen-all true a)
chosen-all false [] = refl
chosen-all false (leaf ∷ a) = ap (λ later. leaf ∷ later) (chosen-all false a)

chosen-none : (inclusive : Bool) (a : List Leaf) → chosen inclusive (λ names. not inclusive) a ≡ []
chosen-none true [] = refl
chosen-none true (leaf ∷ a) = chosen-none true a
chosen-none false [] = refl
chosen-none false (leaf ∷ a) = chosen-none false a

-- The leaves of a result that is written.
abbrev pub kept_leaves : Json × Bool → List Leaf
kept_leaves (v, kept) = if kept then leaves v else []

pub put_field-leaves :
    (inclusive : Bool) (name : Bytes) (child : Json) (inside : List Cursor → Json × Bool)
    (v : Verdict) (out : Fields)
    → ((next : List Cursor)
        → kept_leaves (inside next) ≡ chosen inclusive (any_covers next) (leaves child))
    → field_leaves (put_field inclusive name child inside v out)
      ≡ under name (chosen inclusive (covers_below v) (leaves child)) ++ field_leaves out
unfolding leaves any_covers
put_field-leaves true name child inside matched out e =
    ap (λ a. under name a ++ field_leaves out) (sym (chosen-all true (leaves child)))
put_field-leaves false name child inside matched out e =
    ap (λ a. under name a ++ field_leaves out) (sym (chosen-none false (leaves child)))
put_field-leaves true name child inside (goes_on []) out e =
    ap (λ a. under name a ++ field_leaves out) (sym (chosen-none true (leaves child)))
put_field-leaves false name child inside (goes_on []) out e =
    ap (λ a. under name a ++ field_leaves out) (sym (chosen-all false (leaves child)))
put_field-leaves inclusive name child inside (goes_on (c ∷ next)) out e =
    written (inside (c ∷ next)) ∙ ap (λ a. under name a ++ field_leaves out) (e (c ∷ next))
  where
    written :
        (r : Json × Bool)
        → field_leaves (let (v, kept) = r in if kept then field name v out else out)
          ≡ under name (kept_leaves r) ++ field_leaves out
    written (v, true) = refl
    written (v, false) = refl

pub written_object :
    (fields : Fields) → kept_leaves (object fields, is_field fields) ≡ field_leaves fields
unfolding leaves
written_object no_field = refl
written_object (field name v rest) = refl

pub written_array : (items : Items) → kept_leaves (array items, is_item items) ≡ item_leaves items
unfolding leaves
written_array no_item = refl
written_array (item v rest) = refl

pub put_item :
    (r : Json × Bool) (later : Items)
    → item_leaves (let (v, kept) = r in if kept then item v later else later)
      ≡ kept_leaves r ++ item_leaves later
unfolding leaves
put_item (v, true) later = refl
put_item (v, false) later = refl

pub scalar_chosen :
    (s : Bytes) (inclusive : Bool)
    → kept_leaves (scalar s, not inclusive) ≡ chosen inclusive (λ names. false) (leaves (scalar s))
unfolding leaves
scalar_chosen s true = refl
scalar_chosen s false = refl
