-- ===== src/Base/Sets.antt =====
-- Python's `set` of texts as a list read by membership alone, and `dict` with text keys as an
-- association list in insertion order.
use Prim.Native.String.{String}
use mathlib.Core.Path.{◌≡◌, refl}
use mathlib.Core.Logic.{◌↔◌}
use mathlib.Core.Bool.{Bool, true, false, ◌&&◌, ◌||◌}
use mathlib.Core.Option.{Option, none, some}
use mathlib.Core.List.{List, [], ◌∷◌, ◌++◌}
use native.Mathlib.Omega.{arith}
use text.Mathlib.Text.{◌==◌}
use text.Mathlib.TextEquality.{eq_iff}
use text.Mathlib.TextPositions.{eq_refl}
use surveyforge.Base.Tests.{if◌then◌else◌}

unfoldable pub contains : List String → String → Bool
contains [] a = false
contains (x ∷ xs) a = a == x || contains xs a

-- `a in xs`
abbrev pub In : String → List String → Type 0
In a xs = contains xs a ≡ true

-- `xs <= ys` and `xs == ys` on sets.
unfoldable pub subset : List String → List String → Bool
subset [] ys = true
subset (x ∷ xs) ys = contains ys x && subset xs ys

unfoldable pub same_set : List String → List String → Bool
unfolding subset
same_set xs ys = subset xs ys && subset ys xs

abbrev pub Subset : List String → List String → Type 0
Subset xs ys = (a : String) → In a xs → In a ys

pub contains-append :
    (xs ys : List String) (a : String) → contains (xs ++ ys) a ≡ (contains xs a || contains ys a)
unfolding contains
contains-append [] ys a = refl
contains-append (x ∷ xs) ys a = ground (arith, contains-append xs ys a)

subset_sound : (xs ys : List String) → subset xs ys ≡ true → Subset xs ys
unfolding subset contains
subset_sound [] ys h a m = cc
subset_sound (x ∷ xs) ys h a m = ground (arith, eq_iff a x, subset_sound xs ys (ground arith) a)

subset_complete : (xs ys : List String) → Subset xs ys → subset xs ys ≡ true
unfolding subset contains
subset_complete [] ys h = refl
subset_complete (x ∷ xs) ys h =
    ground (arith, h x, eq_refl x, subset_complete xs ys (λ a m. h a (ground arith)))

pub subset_iff : (xs ys : List String) → (subset xs ys ≡ true) ↔ Subset xs ys
subset_iff xs ys = (subset_sound xs ys, subset_complete xs ys)

pub same_set_iff : (xs ys : List String) → (same_set xs ys ≡ true) ↔ Subset xs ys × Subset ys xs
unfolding same_set
same_set_iff xs ys = (
  λ h. (subset_sound xs ys (ground arith), subset_sound ys xs (ground arith)),
  λ h. ground (arith, subset_complete xs ys h.0, subset_complete ys xs h.1),
)

abbrev pub Dict {ℓ} : Type ℓ → Type ℓ
Dict V = List (String × V)

module _ {ℓ} {V : Type ℓ} where
  -- `d.get(k)`
  unfoldable pub lookup : String → Dict V → Option V
  lookup k [] = none
  lookup k ((j, v) ∷ d) = if j == k then some v else lookup k d

  -- `d[k] = v`: a new key goes last.
  unfoldable pub insert : String → V → Dict V → Dict V
  insert k v [] = (k, v) ∷ []
  insert k v ((j, w) ∷ d) = if j == k then (j, v) ∷ d else (j, w) ∷ insert k v d

  unfoldable pub keys : Dict V → List String
  keys [] = []
  keys ((k, v) ∷ d) = k ∷ keys d

  pub lookup-insert :
      (k j : String) (v : V) (d : Dict V)
      → lookup j (insert k v d) ≡ (if k == j then some v else lookup j d)
  unfolding lookup insert
  lookup-insert k j v [] = refl
  lookup-insert k j v ((i, w) ∷ d) =
      ground (arith, eq_iff k j, eq_iff i k, eq_iff i j, lookup-insert k j v d)

  pub lookup-insert_self : (k : String) (v : V) (d : Dict V) → lookup k (insert k v d) ≡ some v
  lookup-insert_self k v d = simp (lookup-insert, eq_refl)
