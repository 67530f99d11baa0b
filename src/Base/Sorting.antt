-- ===== src/Base/Sorting.antt =====
-- `[...new Set(xs)].sort()`: sorted texts, each once, and membership in them.
use Prim.Native.String
use Prim.Native.String.{String}
use mathlib.Core.Path.{◌≡◌, refl, subst}
use mathlib.Core.Logic.{◌⊎◌, inl, inr}
use mathlib.Core.Bool.{Bool, true, false}
use mathlib.Core.List.{List, [], ◌∷◌}
use native.Mathlib.Omega.{arith}
use text.Mathlib.Text.{◌==◌}
use text.Mathlib.TextEquality.{eq_iff}
use dokion.Base.Tests.{if◌then◌else◌, Bool-cases}
use dokion.Base.Lists.{includes, unique, unique_from}
use dokion.Base.Keyed.{In}

-- `a < b` of two texts
abbrev pub text_lt : String → String → Bool
text_lt a b = elim (String.compare a b) [ Prim.Native.Nat.Ordering.lt ↦ true | _ ↦ false ]

abbrev insert : String → List String → List String
insert x [] = x ∷ []
insert x (y ∷ ys) = let rest = insert x ys in if text_lt y x then y ∷ rest else x ∷ y ∷ ys

abbrev pub sort : List String → List String
sort [] = []
sort (x ∷ xs) = insert x (sort xs)

abbrev pub sorted_unique : List String → List String
sorted_unique xs = sort (unique xs)

pub includes-In : (k : String) (xs : List String) → includes k xs ≡ true → In k xs
includes-In k [] h = cc
includes-In k (x ∷ xs) h = elim (Bool-cases (x == k)) [
  | inl t ↦ inl ((eq_iff x k).0 t)
  | inr f ↦ inr (includes-In k xs (rw f at h))
]

pub includes_of_In : (k : String) (xs : List String) → In k xs → includes k xs ≡ true
includes_of_In k [] i = elim i [ ]
includes_of_In k (x ∷ xs) (inl e) = ground (arith, (eq_iff x k).1 e)
includes_of_In k (x ∷ xs) (inr i) = ground (arith, includes_of_In k xs i)

In-insert : (k x : String) (xs : List String) → (x ≡ k) ⊎ In k xs → In k (insert x xs)
In-insert k x [] h = h
In-insert k x (y ∷ ys) h = elim (Bool-cases (text_lt y x)) [
  | inl t ↦ rw t (behind (In-insert k x ys) h)
  | inr f ↦ rw f h
]
  where
    behind :
        ((x ≡ k) ⊎ In k ys → In k (insert x ys)) → (x ≡ k) ⊎ In k (y ∷ ys) → In k (y ∷ insert x ys)
    behind go (inl e) = inr (go (inl e))
    behind go (inr (inl e)) = inl e
    behind go (inr (inr j)) = inr (go (inr j))

pub In-sort : (k : String) (xs : List String) → In k xs → In k (sort xs)
In-sort k [] i = i
In-sort k (x ∷ xs) (inl e) = In-insert k x (sort xs) (inl e)
In-sort k (x ∷ xs) (inr i) = In-insert k x (sort xs) (inr (In-sort k xs i))

In-unique_from :
    (k : String) (seen xs : List String)
    → In k xs
    → (includes k seen ≡ true) ⊎ In k (unique_from seen xs)
In-unique_from k seen [] i = elim i [ ]
In-unique_from k seen (x ∷ xs) (inl e) = elim (Bool-cases (includes x seen)) [
  | inl t ↦ inl (subst (λ m. includes m seen ≡ true) e t)
  | inr f ↦ inr (rw f (inl e))
]
In-unique_from k seen (x ∷ xs) (inr i) = elim (Bool-cases (includes x seen)) [
  | inl t ↦ rw t (In-unique_from k seen xs i)
  | inr f ↦ rw f (later (x == k) refl (In-unique_from k (x ∷ seen) xs i))
]
  where
    later :
        (b : Bool)
        → (x == k) ≡ b
        → (includes k (x ∷ seen) ≡ true) ⊎ In k (unique_from (x ∷ seen) xs)
        → (includes k seen ≡ true) ⊎ In k (x ∷ unique_from (x ∷ seen) xs)
    later true t h = inr (inl ((eq_iff x k).0 t))
    later false f (inl h) = inl (rw f at h)
    later false f (inr j) = inr (inr j)

pub In-sorted_unique : (k : String) (xs : List String) → In k xs → In k (sorted_unique xs)
In-sorted_unique k xs i = elim (In-unique_from k [] xs i) [
  | inl none_seen ↦ cc
  | inr j ↦ In-sort k (unique xs) j
]
