-- ===== src/Objtypes/Sets.antt =====
-- `addUnique` and `removeString` of internal/objtypes/pr.go: a list of strings as a set.
use event_watch.Base.{
  ◌≡◌, refl, ap, String, Bool, false, not, ◌&&◌, ◌||◌, List, [], ◌∷◌, ◌++◌, ◌=ₛ◌, if◌then◌else◌,
  arith, eq_iff,
}

pub has : String → List String → Bool
has v [] = false
has v (x ∷ xs) = x =ₛ v || has v xs

-- The loop returns early where it finds `v`.
unfoldable pub add_unique : List String → String → List String
unfolding has
add_unique xs v = if has v xs then xs else xs ++ v ∷ []

unfoldable pub remove_string : List String → String → List String
remove_string [] v = []
remove_string (x ∷ xs) v = if x =ₛ v then remove_string xs v else x ∷ remove_string xs v

abbrev pub IsDistinct : List String → Type 0
IsDistinct [] = Unit
IsDistinct (x ∷ xs) = (has x xs ≡ false) × IsDistinct xs

has-append : (v : String) (xs ys : List String) → has v (xs ++ ys) ≡ (has v xs || has v ys)
unfolding has
has-append v [] ys = refl
has-append v (x ∷ xs) ys = ground (arith, has-append v xs ys)

has-remove_string :
    (u v : String) (xs : List String) → has u (remove_string xs v) ≡ (not (v =ₛ u) && has u xs)
unfolding has remove_string
has-remove_string u v [] = ground arith
has-remove_string u v (x ∷ xs) =
    ground (arith, has-remove_string u v xs, eq_iff x v, eq_iff x u, eq_iff v u)

IsDistinct-snoc :
    (xs : List String) (v : String) → IsDistinct xs → has v xs ≡ false → IsDistinct (xs ++ v ∷ [])
unfolding has
IsDistinct-snoc [] v d n = (refl, tt)
IsDistinct-snoc (x ∷ xs) v (m, d) n =
    ground (arith, IsDistinct-snoc xs v d, has-append x xs (v ∷ []), eq_iff x v, eq_iff v x)

pub add_unique-IsDistinct :
    (xs : List String) (v : String) → IsDistinct xs → IsDistinct (add_unique xs v)
unfolding add_unique
add_unique-IsDistinct xs v d = ground (arith, IsDistinct-snoc xs v d)

pub remove_string-IsDistinct :
    (xs : List String) (v : String) → IsDistinct xs → IsDistinct (remove_string xs v)
unfolding remove_string
remove_string-IsDistinct [] v d = tt
remove_string-IsDistinct (x ∷ xs) v (n, d) =
    ground (arith, remove_string-IsDistinct xs v d, has-remove_string x v xs)

-- As sets: adding puts the string in and keeps the others, removing takes it out and keeps the
-- others.
pub sets_lem :
    (xs : List String) (u v : String)
    → (has u (add_unique xs v) ≡ (v =ₛ u || has u xs))
      × (has u (remove_string xs v) ≡ (not (v =ₛ u) && has u xs))
unfolding add_unique has
sets_lem xs u v = (
  ground (arith, has-append u xs (v ∷ []), eq_iff v u, λ (same : v ≡ u). ap (λ w. has w xs) same),
  has-remove_string u v xs,
)
