-- ===== src/FilterPath/Parse.antt =====
-- `parseFilterPath` and `compileFilterPaths` (http_filterpath.go).
use osmem.Prelude.{
  ℕ, Bool, true, false, not, ◌&&◌, ◌||◌, List, [], ◌∷◌, ◌++◌, if◌then◌else◌, eqb, leb,
}
use osmem.Glob.{Bytes, bytes_keys}
use osmem.Router.Dispatch.{contains, drop_trailing}
use osmem.FilterPath.{Cursor, FilterPath}

abbrev pub extend : Bool → ℕ → List Bytes → List Bytes
extend cuts c [] = (c ∷ []) ∷ []
extend true c (part ∷ parts) = [] ∷ part ∷ parts
extend false c (part ∷ parts) = (c ∷ part) ∷ parts

-- strings.Split(raw, ",")
unfoldable pub split_commas : Bytes → List Bytes
split_commas [] = [] ∷ []
split_commas (c ∷ s) = extend (eqb c 44) c (split_commas s)

-- The test of strings.TrimFunc: what is not above a space.
abbrev is_blank : ℕ → Bool
is_blank c = leb c 32

abbrev trim_front : Bytes → Bytes
trim_front [] = []
trim_front (c ∷ s) = let later = trim_front s in if is_blank c then later else c ∷ s

abbrev pub trim_end : ℕ → Bytes → Bytes
trim_end c [] = if is_blank c then [] else c ∷ []
trim_end c (d ∷ s) = c ∷ d ∷ s

abbrev pub trim_back : Bytes → Bytes
trim_back [] = []
trim_back (c ∷ s) = trim_end c (trim_back s)

unfoldable pub trim : Bytes → Bytes
trim s = trim_back (trim_front s)

-- Cuts at the dots that follow no backslash, 92; the first argument says whether one came before.
unfoldable pub split_dots : Bool → Bytes → List Bytes
split_dots escaped [] = [] ∷ []
split_dots escaped (c ∷ s) = extend (eqb c 46 && not escaped) c (split_dots (eqb c 92) s)

-- strings.ReplaceAll(s, "\\.", "."): the backslash goes if a dot comes next.
abbrev pub drop_backslash : ℕ → Bytes → Bytes → Bytes
drop_backslash c [] later = c ∷ later
drop_backslash c (d ∷ s) later = if eqb c 92 && eqb d 46 then later else c ∷ later

unfoldable pub replace_dots : Bytes → Bytes
replace_dots [] = []
replace_dots (c ∷ s) = drop_backslash c s (replace_dots s)

unfoldable pub replace_all_dots : List Bytes → List Bytes
unfolding replace_dots
replace_all_dots [] = []
replace_all_dots (seg ∷ segs) = replace_dots seg ∷ replace_all_dots segs

abbrev pub compile_one : Bytes → List Cursor → List Cursor
compile_one [] later = later
compile_one (c ∷ f) later = replace_all_dots (drop_trailing (split_dots false (c ∷ f))) ∷ later

-- `compileFilterPaths`
unfoldable pub compile : List Bytes → List Cursor
unfolding trim split_dots drop_trailing replace_all_dots
compile [] = []
compile (f ∷ filters) = compile_one (trim f) (compile filters)

-- The variables of the loop of `parseFilterPath`.
pub record Tokens : Type 0 where
  pub includes : List Bytes
  pub excludes : List Bytes
  pub seen : List Bytes

-- 45 is the minus sign.
abbrev add_new : Bytes → Tokens → Tokens
add_new [] t = t
add_new (c ∷ token) t =
    if eqb c 45
    then record t { excludes = t.excludes ++ (token ∷ []); seen = (c ∷ token) ∷ t.seen }
    else record t { includes = t.includes ++ ((c ∷ token) ∷ []); seen = (c ∷ token) ∷ t.seen }

abbrev add_token : Bytes → Tokens → Tokens
add_token token t = if contains token t.seen then t else add_new token t

unfoldable pub add_tokens : List Bytes → Tokens → Tokens
unfolding trim contains
add_tokens [] t = t
add_tokens (part ∷ parts) t = add_tokens parts (add_token (trim part) t)

pub data Parsed : Type 0 where
  -- the filters, and `active`
  filters : FilterPath → Bool → Parsed
  -- illegal_argument_exception, filters cannot be null or empty
  empty_filter : FilterPath → Parsed

abbrev nothing_in {ℓ} : {A : Type ℓ} → List A → Bool
nothing_in [] = true
nothing_in (x ∷ xs) = false

abbrev parsed : Tokens → FilterPath → Parsed
parsed t fp =
    if (not (nothing_in t.includes) && nothing_in fp.include)
      || (not (nothing_in t.excludes) && nothing_in fp.exclude)
    then empty_filter fp
    else filters fp (not (nothing_in fp.include) || not (nothing_in fp.exclude))

abbrev pub no_tokens : Tokens
no_tokens = record { includes = []; excludes = []; seen = [] }

-- `parseFilterPath`
unfoldable pub parse_filter_path : Bytes → Parsed
unfolding split_commas add_tokens compile
parse_filter_path [] = filters (record { include = []; exclude = [] }) false
parse_filter_path (c ∷ raw) =
    let t = add_tokens (split_commas (c ∷ raw)) no_tokens in
    parsed t (record { include = compile t.includes; exclude = compile t.excludes })
