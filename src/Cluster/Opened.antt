-- ===== src/Cluster/Opened.antt =====
-- No index is closed while it is referred to (index.go, `release`).
use osmem.Prelude.{ℕ, ◌≤◌, ◌<◌, String, false, List, [], ◌∷◌, ◌≡◌, arith, eqb_iff}
use osmem.Prelude.Dict.{Dict, string_keys}
use osmem.Cluster.{Pit, Counts, put_at, retain, release, retain_all, release_all, release_pits}
use osmem.Cluster.Sums.{occurrences}

-- No index that is still referred to is closed.
abbrev pub IsOpen : Counts → Type 0
IsOpen s = (h : ℕ) → 0 < s.refs h → s.closed h ≡ false

pub release-IsOpen : (s : Counts) (r : ℕ) → IsOpen s → IsOpen (release s r)
unfolding release put_at
release-IsOpen s r o h p = ground (arith, o h, eqb_iff r h)

pub retain-IsOpen : (s : Counts) (r : ℕ) → 0 < s.refs r → IsOpen s → IsOpen (retain s r)
unfolding retain put_at
retain-IsOpen s r q o h p = ground (arith, o h, o r, eqb_iff r h)

pub retain-refs : (s : Counts) (r h : ℕ) → s.refs h ≤ (retain s r).refs h
unfolding retain put_at
retain-refs s r h = ground (arith, eqb_iff r h)

pub release_all-IsOpen : (s : Counts) (hs : List ℕ) → IsOpen s → IsOpen (release_all s hs)
unfolding release_all
release_all-IsOpen s [] o = o
release_all-IsOpen s (h ∷ hs) o = release_all-IsOpen (release s h) hs (release-IsOpen s h o)

pub release_pits-IsOpen :
    (s : Counts) (pits : Dict String Pit) → IsOpen s → IsOpen (release_pits s pits)
unfolding release_pits
release_pits-IsOpen s [] o = o
release_pits-IsOpen s (pit ∷ pits) o =
    release_pits-IsOpen (release_all s pit.1.targets) pits (release_all-IsOpen s pit.1.targets o)

-- Every index of the list is referred to.
abbrev pub AllReferred : Counts → List ℕ → Type 0
AllReferred s hs = (h : ℕ) → 0 < occurrences h hs → 0 < s.refs h

pub retain_all-IsOpen :
    (s : Counts) (hs : List ℕ) → AllReferred s hs → IsOpen s → IsOpen (retain_all s hs)
unfolding retain_all occurrences
retain_all-IsOpen s [] a o = o
retain_all-IsOpen s (r ∷ rs) a o =
    retain_all-IsOpen (retain s r) rs (λ h p. ground (arith, a h, retain-refs s r h))
      (retain-IsOpen s r (a r (ground (arith, eqb_iff r r))) o)
