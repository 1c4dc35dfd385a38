-- ===== src/Glob/First.antt =====
-- Why `simpleMatch` may take the first occurrence of each part: it leaves the longest rest.
use osmem.Prelude.{
  ℕ, zero, suc, Bool, true, ◌||◌, Option, none, some, [], ◌∷◌, ◌≡◌, refl, subst, arith, length,
  Bool-cases, inl, inr,
}
use osmem.Glob.{Bytes, passes, here_or, drop_prefix, any_suffix, after_prefix, after_first}
use osmem.Glob.Reference.{after_prefix-cons}

abbrev drop : ℕ → Bytes → Bytes
drop zero s = s
drop (suc n) [] = []
drop (suc n) (d ∷ s) = drop n s

drop_prefix-drop :
    (part s rest : Bytes) → drop_prefix part s ≡ some rest → drop (length part) s ≡ rest
unfolding drop_prefix
drop_prefix-drop [] s rest e = ground (arith, e)
drop_prefix-drop (c ∷ part) [] rest e = ground (arith, e)
drop_prefix-drop (c ∷ part) (d ∷ s) rest e = ground (arith, e, drop_prefix-drop part s rest)

after_prefix-drop :
    (test : Bytes → Bool) (part s : Bytes)
    → after_prefix part test s ≡ true
    → test (drop (length part) s) ≡ true
unfolding drop_prefix
after_prefix-drop test [] s e = e
after_prefix-drop test (c ∷ part) [] e = ground (arith, e)
after_prefix-drop test (c ∷ part) (d ∷ s) e =
    ground (arith, after_prefix-cons c part test d s, e, after_prefix-drop test part s)

-- One step of the search, by whether the part stands here.
first_step :
    (test : Bytes → Bool) (now later : Option Bytes) (any : Bool)
    → passes test later ≡ any
    → ((rest : Bytes) → now ≡ some rest → any ≡ true → test rest ≡ true)
    → passes test (here_or now later) ≡ (passes test now || any)
first_step test none later any e longest = e
first_step test (some rest) later any e longest = ground (arith, longest rest refl)

-- A test that holds of a text and one byte more in front where it holds of the text.
abbrev pub Upward : (Bytes → Bool) → Type 0
Upward test = (d : ℕ) (s : Bytes) → test s ≡ true → test (d ∷ s) ≡ true

module _ (test : Bytes → Bool) (upward : Upward test) where
  drop-later : (n d : ℕ) (s : Bytes) → test (drop n s) ≡ true → test (drop n (d ∷ s)) ≡ true
  drop-later zero d s e = upward d s e
  drop-later (suc zero) d [] e = e
  drop-later (suc (suc n)) d [] e = e
  drop-later (suc n) d (x ∷ s) e = drop-later n x s e

  any_suffix-drop :
      (part s : Bytes)
      → any_suffix (after_prefix part test) s ≡ true
      → test (drop (length part) s) ≡ true
  unfolding any_suffix
  any_suffix-drop part [] e = after_prefix-drop test part [] e
  any_suffix-drop part (d ∷ s) e = elim (Bool-cases (after_prefix part test (d ∷ s))) [
    | inl now ↦ after_prefix-drop test part (d ∷ s) now
    | inr not ↦ drop-later (length part) d s (any_suffix-drop part s (ground (arith, not, e)))
  ]

  -- The first occurrence decides.
  pub after_first-any :
      (part s : Bytes) → passes test (after_first part s) ≡ any_suffix (after_prefix part test) s
  unfolding any_suffix after_first
  after_first-any part [] = refl
  after_first-any part (d ∷ s) =
      first_step test (drop_prefix part (d ∷ s)) (after_first part s)
        (any_suffix (after_prefix part test) s) (after_first-any part s)
        (λ rest e any.
          subst (λ r. test r ≡ true) (drop_prefix-drop part (d ∷ s) rest e)
            (drop-later (length part) d s (any_suffix-drop part s any)))
