-- ===== src/FilterPath/Escaped.antt =====
-- A path of names written with escaped dots is read back as its names (http_filterpath.go,
-- `compileFilterPaths`).
use osmem.Prelude.{
  ℕ, Bool, true, false, ◌&&◌, List, [], ◌∷◌, ◌++◌, ◌≡◌, ◌≢◌, refl, sym, ap, ap₂, ◌∙◌, arith,
  if◌then◌else◌, eqb, eqb_iff, All, Bool-cases, inl, inr, ◌<◌, leb,
}
use osmem.Glob.{Bytes}
use osmem.Router.Dispatch.{drop_trailing, cons_unless_empty}
use osmem.FilterPath.Parse.{
  compile, compile_one, trim, trim_back, trim_end, extend, split_dots, drop_backslash, replace_dots,
  replace_all_dots,
}

-- A dot is written with a backslash, 92, in front.
unfoldable pub escape : Bytes → Bytes
escape [] = []
escape (c ∷ s) = let later = escape s in if eqb c 46 then 92 ∷ 46 ∷ later else c ∷ later

unfoldable pub join_dots : Bytes → List Bytes → Bytes
unfolding escape
join_dots name [] = escape name
join_dots name (next ∷ names) = escape name ++ (46 ∷ join_dots next names)

abbrev pub IsUnescaped : Bytes → Type 0
IsUnescaped s = All (λ c. c ≢ 92) s

abbrev glue : Bytes → List Bytes → List Bytes
glue front [] = front ∷ []
glue front (part ∷ parts) = (front ++ part) ∷ parts

extend-glue :
    (c : ℕ) (front : Bytes) (parts : List Bytes)
    → extend false c (glue front parts) ≡ glue (c ∷ front) parts
extend-glue c front [] = refl
extend-glue c front (part ∷ parts) = refl

not_backslash : (c : ℕ) → c ≢ 92 → eqb c 92 ≡ false
not_backslash c ne = ground (arith, eqb_iff c 92)

glue-extend :
    (cuts : Bool) (c : ℕ) (parts : List Bytes) → extend cuts c parts ≡ glue [] (extend cuts c parts)
glue-extend cuts c [] = refl
glue-extend true c (part ∷ parts) = refl
glue-extend false c (part ∷ parts) = refl

glue-split_dots : (s : Bytes) → split_dots false s ≡ glue [] (split_dots false s)
unfolding split_dots
glue-split_dots [] = refl
glue-split_dots (c ∷ s) = glue-extend (eqb c 46 && true) c (split_dots (eqb c 92) s)

cut_extended :
    (c : ℕ) (cuts : Bool) (d : ℕ) (parts : List Bytes)
    → extend true c (extend cuts d parts) ≡ [] ∷ extend cuts d parts
cut_extended c cuts d [] = refl
cut_extended c true d (part ∷ parts) = refl
cut_extended c false d (part ∷ parts) = refl

cut_split : (c : ℕ) (s : Bytes) → extend true c (split_dots false s) ≡ [] ∷ split_dots false s
unfolding split_dots
cut_split c [] = refl
cut_split c (d ∷ s) = cut_extended c (eqb d 46 && true) d (split_dots (eqb d 92) s)

append_nothing : (s : Bytes) → s ++ [] ≡ s
append_nothing [] = refl
append_nothing (c ∷ s) = ap (λ later. c ∷ later) (append_nothing s)

split_dots-escape :
    (s rest : Bytes)
    → IsUnescaped s
    → split_dots false (escape s ++ rest) ≡ glue (escape s) (split_dots false rest)
unfolding split_dots escape
split_dots-escape [] rest plain = glue-split_dots rest
split_dots-escape (c ∷ s) rest plain = elim (Bool-cases (eqb c 46)) [
  | inl b ↦ rw b (
      ap (λ parts. extend false 92 (extend false 46 parts)) (split_dots-escape s rest plain.1)
      ∙ ap (extend false 92) (extend-glue 46 (escape s) (split_dots false rest))
      ∙ extend-glue 92 (46 ∷ escape s) (split_dots false rest))
  | inr b ↦ rw b (
      ap (λ (x : Bool). extend (x && true) c (split_dots (eqb c 92) (escape s ++ rest))) b
      ∙ ap (λ (y : Bool). extend false c (split_dots y (escape s ++ rest)))
          (not_backslash c plain.0)
      ∙ ap (extend false c) (split_dots-escape s rest plain.1)
      ∙ extend-glue c (escape s) (split_dots false rest))
]

drop_backslash_other :
    (c : ℕ) (s later : Bytes) → eqb c 92 ≡ false → drop_backslash c s later ≡ c ∷ later
drop_backslash_other c [] later e = refl
drop_backslash_other c (d ∷ s) later e = rw e refl

replace_dots-escape : (s : Bytes) → IsUnescaped s → replace_dots (escape s) ≡ s
unfolding replace_dots escape
replace_dots-escape [] plain = refl
replace_dots-escape (c ∷ s) plain = elim (Bool-cases (eqb c 46)) [
  | inl b ↦ rw b (
      drop_backslash_other 46 (escape s) (replace_dots (escape s)) refl
      ∙ ap₂ (λ (d : ℕ) (later : Bytes). d ∷ later) (sym ((eqb_iff c 46).0 b))
          (replace_dots-escape s plain.1))
  | inr b ↦ rw b (
      drop_backslash_other c (escape s) (replace_dots (escape s)) (not_backslash c plain.0)
      ∙ ap (λ later. c ∷ later) (replace_dots-escape s plain.1))
]

unfoldable escape_all : List Bytes → List Bytes
unfolding escape
escape_all [] = []
escape_all (name ∷ names) = escape name ∷ escape_all names

split_dots-join_dots :
    (name : Bytes) (names : List Bytes)
    → All IsUnescaped (name ∷ names)
    → split_dots false (join_dots name names) ≡ escape_all (name ∷ names)
unfolding split_dots join_dots escape_all
split_dots-join_dots name [] plain =
    ap (split_dots false) (sym (append_nothing (escape name)))
    ∙ split_dots-escape name [] plain.0
    ∙ ap (λ s. s ∷ []) (append_nothing (escape name))
split_dots-join_dots name (next ∷ names) plain =
    let later = join_dots next names in
    split_dots-escape name (46 ∷ later) plain.0
    ∙ ap (glue (escape name)) (cut_split 46 later)
    ∙ ap₂ (λ (s : Bytes) (rest : List Bytes). s ∷ rest) (append_nothing (escape name))
        (split_dots-join_dots next names plain.1)

replace_all_dots-escape_all :
    (names : List Bytes) → All IsUnescaped names → replace_all_dots (escape_all names) ≡ names
unfolding replace_all_dots escape_all
replace_all_dots-escape_all [] plain = refl
replace_all_dots-escape_all (name ∷ names) plain =
    ap₂ (λ (s : Bytes) (rest : List Bytes). s ∷ rest) (replace_dots-escape name plain.0)
      (replace_all_dots-escape_all names plain.1)

-- The last name is not empty.
abbrev pub EndsNamed : Bytes → List Bytes → Type 0
EndsNamed name [] = name ≢ []
EndsNamed name (next ∷ names) = EndsNamed next names

cons_before :
    (part next : Bytes) (parts : List Bytes)
    → cons_unless_empty part (next ∷ parts) ≡ part ∷ next ∷ parts
cons_before [] next parts = refl
cons_before (c ∷ part) next parts = refl

drop_trailing-escaped :
    (name : Bytes) → name ≢ [] → drop_trailing (escape name ∷ []) ≡ escape name ∷ []
unfolding drop_trailing escape
drop_trailing-escaped [] named = absurd (named refl)
drop_trailing-escaped (c ∷ s) named = elim (Bool-cases (eqb c 46)) [
  | inl b ↦ rw b refl
  | inr b ↦ rw b refl
]

drop_trailing-escape_all :
    (name : Bytes) (names : List Bytes)
    → EndsNamed name names
    → drop_trailing (escape_all (name ∷ names)) ≡ escape_all (name ∷ names)
unfolding drop_trailing escape_all
drop_trailing-escape_all name [] named = drop_trailing-escaped name named
drop_trailing-escape_all name (next ∷ names) named =
    ap (cons_unless_empty (escape name)) (drop_trailing-escape_all next names named)
    ∙ cons_before (escape name) (escape next) (escape_all names)

-- The first and the last byte are no blanks, which are the bytes up to a space, 32.
abbrev pub EndsDark : ℕ → Bytes → Type 0
EndsDark c [] = 32 < c
EndsDark c (d ∷ s) = EndsDark d s

abbrev pub IsTrimmed : Bytes → Type 0
IsTrimmed [] = ⊥
IsTrimmed (c ∷ s) = (32 < c) × EndsDark c s

above_blank : (c : ℕ) → 32 < c → leb c 32 ≡ false
above_blank c h = ground arith

trim_back-EndsDark : (c : ℕ) (s : Bytes) → EndsDark c s → trim_back (c ∷ s) ≡ c ∷ s
trim_back-EndsDark c [] h = rw (above_blank c h) refl
trim_back-EndsDark c (d ∷ s) h = ap (trim_end c) (trim_back-EndsDark d s h)

trim-IsTrimmed : (s : Bytes) → IsTrimmed s → trim s ≡ s
unfolding trim
trim-IsTrimmed [] h = refl
trim-IsTrimmed (c ∷ s) h = rw (above_blank c h.0) (trim_back-EndsDark c s h.1)

compile-IsTrimmed :
    (f : Bytes) (filters : List Bytes)
    → IsTrimmed f
    → compile (f ∷ filters)
      ≡ replace_all_dots (drop_trailing (split_dots false f)) ∷ compile filters
unfolding compile
compile-IsTrimmed [] filters h = absurd h
compile-IsTrimmed (c ∷ s) filters h =
    ap (λ f. compile_one f (compile filters)) (trim-IsTrimmed (c ∷ s) h)

-- A filter that is a path of names, written with the dots of the names escaped and joined by dots,
-- is compiled to these names again. The names hold no backslash, the last one is not empty, and the
-- written path starts and ends with no blank.
pub compile-join_dots :
    (name : Bytes) (names filters : List Bytes)
    → All IsUnescaped (name ∷ names)
    → EndsNamed name names
    → IsTrimmed (join_dots name names)
    → compile (join_dots name names ∷ filters) ≡ (name ∷ names) ∷ compile filters
compile-join_dots name names filters plain named trimmed =
    compile-IsTrimmed (join_dots name names) filters trimmed
    ∙ ap (λ segs. replace_all_dots segs ∷ compile filters)
        (ap drop_trailing (split_dots-join_dots name names plain)
          ∙ drop_trailing-escape_all name names named)
    ∙ ap (λ segs. segs ∷ compile filters) (replace_all_dots-escape_all (name ∷ names) plain)
