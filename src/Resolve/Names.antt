-- ===== src/Resolve/Names.antt =====
-- internal/engine/resolve.go: the ordered sets of names (`orderedNames`), of which no name is there twice.
use osmem.Prelude.{false, not, ◌&&◌, ◌||◌, List, [], ◌∷◌, ◌++◌, ◌≡◌, refl, arith}
use osmem.Prelude.Dict.{◌==◌, member}
use osmem.Glob.{Bytes, bytes_keys, same_bytes_iff}
use osmem.Resolve.Expand.{add_name, remove_name, add_names, remove_names}

abbrev pub AllOnce : List Bytes → Type 0
AllOnce [] = Unit
AllOnce (n ∷ names) = (member n names ≡ false) × AllOnce names

pub member-append : (n : Bytes) (a b : List Bytes) → member n (a ++ b) ≡ (member n a || member n b)
unfolding member
member-append n [] b = refl
member-append n (m ∷ a) b = ground (arith, member-append n a b)

pub AllOnce-append :
    (n : Bytes) (names : List Bytes)
    → member n names ≡ false
    → AllOnce names
    → AllOnce (names ++ (n ∷ []))
unfolding member
AllOnce-append n [] e once = (refl, tt)
AllOnce-append n (m ∷ names) e once = ground (
  arith,
  member-append m names (n ∷ []),
  AllOnce-append n names,
  same_bytes_iff m n,
  same_bytes_iff n m,
)

pub member-add_name :
    (n m : Bytes) (names : List Bytes) → member n (add_name m names) ≡ (m == n || member n names)
unfolding add_name member
member-add_name n m names = ground (arith, member-append n names (m ∷ []), same_bytes_iff m n)

pub AllOnce-add_name : (m : Bytes) (names : List Bytes) → AllOnce names → AllOnce (add_name m names)
unfolding add_name
AllOnce-add_name m names once = ground (arith, AllOnce-append m names)

pub member-remove_name :
    (n m : Bytes) (names : List Bytes)
    → AllOnce names
    → member n (remove_name m names) ≡ (not (m == n) && member n names)
unfolding remove_name member
member-remove_name n m [] once = ground arith
member-remove_name n m (k ∷ names) once = ground (
  arith,
  member-remove_name n m names once.1,
  same_bytes_iff k m,
  same_bytes_iff m n,
  same_bytes_iff k n,
)

pub AllOnce-remove_name :
    (m : Bytes) (names : List Bytes) → AllOnce names → AllOnce (remove_name m names)
unfolding remove_name
AllOnce-remove_name m [] once = tt
AllOnce-remove_name m (k ∷ names) once =
    ground (arith, AllOnce-remove_name m names once.1, member-remove_name k m names once.1)

pub member-add_names :
    (n : Bytes) (more names : List Bytes)
    → member n (add_names more names) ≡ (member n more || member n names)
unfolding add_names member
member-add_names n [] names = refl
member-add_names n (m ∷ more) names =
    ground (arith, member-add_names n more (add_name m names), member-add_name n m names)

pub AllOnce-add_names : (more names : List Bytes) → AllOnce names → AllOnce (add_names more names)
unfolding add_names
AllOnce-add_names [] names once = once
AllOnce-add_names (m ∷ more) names once =
    AllOnce-add_names more (add_name m names) (AllOnce-add_name m names once)

pub member-remove_names :
    (n : Bytes) (more names : List Bytes)
    → AllOnce names
    → member n (remove_names more names) ≡ (not (member n more) && member n names)
unfolding remove_names member
member-remove_names n [] names once = refl
member-remove_names n (m ∷ more) names once = ground (
  arith,
  member-remove_names n more (remove_name m names) (AllOnce-remove_name m names once),
  member-remove_name n m names once,
)

pub AllOnce-remove_names :
    (more names : List Bytes) → AllOnce names → AllOnce (remove_names more names)
unfolding remove_names
AllOnce-remove_names [] names once = once
AllOnce-remove_names (m ∷ more) names once =
    AllOnce-remove_names more (remove_name m names) (AllOnce-remove_name m names once)
