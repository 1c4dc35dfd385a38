-- ===== src/FilterPath.antt =====
-- http_filterpath.go: filters of a response body. Texts are lists of bytes.
pub mod Parse
pub mod Covers
pub mod Leaves
pub mod Kept
pub mod Escaped
use osmem.Prelude.{
  ℕ, Bool, true, false, not, ◌&&◌, ◌||◌, Option, some, none, List, [], ◌∷◌, ◌++◌, if◌then◌else◌,
  eqb,
}
use osmem.Prelude.Dict.{◌==◌}
use osmem.Glob.{Bytes, star, glob_match, bytes_keys}

-- What json.Decoder gives: a scalar stays opaque.
mutual
  pub data Json : Type 0 where
    scalar : Bytes → Json
    object : Fields → Json
    array : Items → Json

  pub data Fields : Type 0 where
    no_field : Fields
    field : Bytes → Json → Fields → Fields

  pub data Items : Type 0 where
    no_item : Items
    item : Json → Items → Items

-- A cursor is what is left of its path.
abbrev pub Cursor : Type 0
Cursor = List Bytes

abbrev pub any_level : Bytes → Bool
any_level seg = seg == (star ∷ star ∷ [])

unfoldable pub segment_fits : Bytes → Bytes → Bool
unfolding glob_match
segment_fits seg name = seg == (star ∷ []) || any_level seg || glob_match seg name

-- What the loop of `evaluateFilterPath` does next.
pub data Verdict : Type 0 where
  goes_on : List Cursor → Verdict
  matched : Verdict

abbrev pub evaluate_cursor : Bytes → Cursor → List Cursor → Verdict
evaluate_cursor name [] next = goes_on next
evaluate_cursor name (seg ∷ []) next = if segment_fits seg name then matched else goes_on next
evaluate_cursor name (seg ∷ later ∷ path) next =
    if segment_fits seg name
    then if any_level seg
      then goes_on (next ++ ((seg ∷ later ∷ path) ∷ (later ∷ path) ∷ []))
      else goes_on (next ++ ((later ∷ path) ∷ []))
    else goes_on next

-- The loop of `evaluateFilterPath`.
unfoldable pub evaluate_from : Bytes → List Cursor → List Cursor → Verdict
unfolding segment_fits
evaluate_from name [] next = goes_on next
evaluate_from name (c ∷ cursors) next = elim (evaluate_cursor name c next) [
  | matched ↦ matched
  | goes_on further ↦ evaluate_from name cursors further
]

unfoldable pub evaluate : Bytes → List Cursor → Verdict
unfolding evaluate_from
evaluate name cursors = evaluate_from name cursors []

abbrev pub is_field : Fields → Bool
is_field no_field = false
is_field (field name v rest) = true

abbrev pub is_item : Items → Bool
is_item no_item = false
is_item (item v rest) = true

-- The switch of `filterValue` on one field; `inside` filters the child.
abbrev pub put_field : Bool → Bytes → Json → (List Cursor → Json × Bool) → Verdict → Fields → Fields
put_field true name child inside matched out = field name child out
put_field false name child inside matched out = out
put_field true name child inside (goes_on []) out = out
put_field false name child inside (goes_on []) out = field name child out
put_field inclusive name child inside (goes_on (c ∷ next)) out =
    let (r, kept) = inside (c ∷ next) in if kept then field name r out else out

unfoldable mutual
  unfolding evaluate

  pub filter_value : Json → List Cursor → Bool → Json × Bool
  filter_value (scalar s) cursors inclusive = (scalar s, not inclusive)
  filter_value (object fields) cursors inclusive =
      let out = filter_fields fields cursors inclusive in (object out, is_field out)
  filter_value (array items) cursors inclusive =
      let out = filter_items items cursors inclusive in (array out, is_item out)

  pub filter_fields : Fields → List Cursor → Bool → Fields
  filter_fields no_field cursors inclusive = no_field
  filter_fields (field name child rest) cursors inclusive =
      put_field inclusive name child (λ next. filter_value child next inclusive)
        (evaluate name cursors) (filter_fields rest cursors inclusive)

  pub filter_items : Items → List Cursor → Bool → Items
  filter_items no_item cursors inclusive = no_item
  filter_items (item v rest) cursors inclusive =
      let (r, kept) = filter_value v cursors inclusive in
      let later = filter_items rest cursors inclusive in if kept then item r later else later

pub record FilterPath : Type 0 where
  pub include : List Cursor
  pub exclude : List Cursor

abbrev pub is_object : Json → Bool
is_object (scalar s) = false
is_object (object fields) = true
is_object (array items) = false

abbrev pub pass : Bool → Bool → List Cursor → Json → Option Json
pass root_object inclusive [] tree = some tree
pass root_object inclusive (c ∷ cursors) tree =
    let (filtered, kept) = filter_value tree (c ∷ cursors) inclusive in
    if kept || root_object then some filtered else none

abbrev pub then_exclude : Bool → List Cursor → Option Json → Option Json
then_exclude root_object exclude none = none
then_exclude root_object exclude (some tree) = pass root_object false exclude tree

-- `apply` on the decoded body; none when nothing is left to write.
unfoldable pub apply : FilterPath → Json → Option Json
unfolding filter_value
apply fp tree =
    then_exclude (is_object tree) fp.exclude (pass (is_object tree) true fp.include tree)
