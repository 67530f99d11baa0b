-- ===== src/Base/Keyed.antt =====
-- Lists of pairs as the source's `Map`, and loops that report a name declared twice.
use Prim.Native.String.{String}
use mathlib.Core.Path.{◌≡◌, refl, ap, subst, ◌∙◌}
use mathlib.Core.Logic.{◌≢◌, ◌⊎◌, inl, inr}
use mathlib.Core.Bool.{Bool, true, false, ◌||◌}
use mathlib.Core.Option.{Option, none, some}
use mathlib.Core.List.{List, [], ◌∷◌, ◌++◌}
use native.Mathlib.Omega.{arith}
use text.Mathlib.Text.{◌==◌}
use text.Mathlib.TextEquality.{eq_iff}
use text.Mathlib.TextPositions.{eq_refl}
use dokion.Base.Tests.{if◌then◌else◌, Bool-cases, Option-cases}
use dokion.Base.Lists.{includes, All}

module _ {A : Type 0} where
  abbrev pub In : A → List A → Type 0
  In a [] = ⊥
  In a (x ∷ xs) = (x ≡ a) ⊎ In a xs

  pub All_In : (P : A → Type 0) (a : A) (xs : List A) → All P xs → In a xs → P a
  All_In P a [] h i = elim i [ ]
  All_In P a (x ∷ xs) (p, ps) (inl e) = subst P e p
  All_In P a (x ∷ xs) (p, ps) (inr i) = All_In P a xs ps i

module _ {A : Type 0} where
  -- `new Map(entries).get(key)`: the last entry of that name counts
  abbrev pub map_get : String → List (String × A) → Option A
  map_get k [] = none
  map_get k ((j, v) ∷ rest) = elim (map_get k rest) [
    | some w ↦ some w
    | none ↦ if j == k then some v else none
  ]

  -- no two entries of the same name
  abbrev pub UniqueKeys : List (String × A) → Type 0
  UniqueKeys [] = Unit
  UniqueKeys ((k, v) ∷ rest) = All (λ e. e.0 ≢ k) rest × UniqueKeys rest

  -- the entries whose names are not yet known
  abbrev pub Unseen : List String → List (String × A) → Type 0
  Unseen seen xs = All (λ e. includes e.0 seen ≡ false) xs

  -- The loop that enters each name once: `kept` are the messages on an entry that is new, and
  -- `duplicate` is the one on an entry whose name is taken, which is passed over.
  module _ {I : Type 0} (kept : String × A → List I) (duplicate : String × A → I) where
    abbrev pub register : List String → List (String × A) → List (String × A) × List I
    register seen [] = ([], [])
    register seen (e ∷ rest) =
        let (fresh, fresh_issues) = register (e.0 ∷ seen) rest in
        let (others, other_issues) = register seen rest in
        if includes e.0 seen
        then (others, duplicate e ∷ other_issues)
        else (e ∷ fresh, kept e ++ fresh_issues)

  pub In-map_get :
      (k : String) (v : A) (xs : List (String × A)) → map_get k xs ≡ some v → In (k, v) xs
  In-map_get k v [] h = cc
  In-map_get k v ((j, u) ∷ rest) h = elim (Option-cases (map_get k rest)) [
    | inr (w, e) ↦ inr (In-map_get k v rest (e ∙ rw e at h))
    | inl e ↦ inl (found (j == k) refl (rw e at h))
  ]
    where
      found :
          (b : Bool)
          → (j == k) ≡ b
          → (if b then some u else none) ≡ some v
          → ◌≡◌ {A = String × A} (j, u) (k, v)
      found true t h = ground (arith, (eq_iff j k).0 t)
      found false t h = cc

  map_get_apart :
      (k : String) (xs : List (String × A)) → All (λ e. e.0 ≢ k) xs → map_get k xs ≡ none
  map_get_apart k [] h = refl
  map_get_apart k ((j, w) ∷ rest) (ne, h) = rw (map_get_apart k rest h) (ground (arith, eq_iff j k))

  pub map_get_of_In :
      (k : String) (v : A) (xs : List (String × A))
      → UniqueKeys xs
      → In (k, v) xs
      → map_get k xs ≡ some v
  map_get_of_In k v [] u i = elim i [ ]
  map_get_of_In k v ((j, w) ∷ rest) (apart, u) (inl e) =
      rw (map_get_apart k rest (subst (λ t. All (λ x. x.0 ≢ t) rest) (ap (λ p. p.0) e) apart))
        (ground (arith, e, eq_refl k, eq_iff j k))
  map_get_of_In k v ((j, w) ∷ rest) (apart, u) (inr i) = rw (map_get_of_In k v rest u i) refl

pub All-weaken :
    {A : Type 0} (P Q : A → Type 0) (xs : List A) → ((a : A) → P a → Q a) → All P xs → All Q xs
All-weaken P Q [] h p = tt
All-weaken P Q (x ∷ xs) h (p, ps) = (h x p, All-weaken P Q xs h ps)

pub All-All : {A : Type 0} (P : A → Type 0) (xs : List A) → ((a : A) → P a) → All P xs
All-All P [] h = tt
All-All P (x ∷ xs) h = (h x, All-All P xs h)

pub All-both :
    {A : Type 0} (P Q : A → Type 0) (xs : List A) → All P xs → All Q xs → All (λ a. P a × Q a) xs
All-both P Q [] p q = tt
All-both P Q (x ∷ xs) (p, ps) (q, qs) = ((p, q), All-both P Q xs ps qs)

cons-ne-nil : {A : Type 0} (x : A) (xs : List A) → x ∷ xs ≢ []
cons-ne-nil x xs h = cc

or-false : (a b : Bool) → a || b ≡ false → (a ≡ false) × (b ≡ false)
or-false false b h = (refl, h)
or-false true b h = cc

pub append-eq-nil : {A : Type 0} (xs ys : List A) → xs ++ ys ≡ [] → (xs ≡ []) × (ys ≡ [])
append-eq-nil [] ys h = (refl, h)
append-eq-nil (x ∷ xs) ys h = absurd (cons-ne-nil x (xs ++ ys) h)

module _ {A : Type 0} where
  pub Unseen-of-cons :
      (k : String) (seen : List String) (e : String × A)
      → includes e.0 (k ∷ seen) ≡ false
      → (e.0 ≢ k) × (includes e.0 seen ≡ false)
  Unseen-of-cons k seen (j, v) h =
      let (apart, new) = or-false (k == j) (includes j seen) h in
      (λ e. ground (arith, apart, e, eq_refl j, eq_iff k j), new)

  pub Unseen_cons :
      (k : String) (seen : List String) (e : String × A)
      → (e.0 ≢ k) × (includes e.0 seen ≡ false)
      → includes e.0 (k ∷ seen) ≡ false
  Unseen_cons k seen (j, v) (ne, h) = ground (arith, h, ne, eq_iff k j)

module _ {A I : Type 0} (kept : String × A → List I) (duplicate : String × A → I) where
  -- what a loop without a message shows of its entries: it has entered them all
  pub register-clean :
      (seen : List String) (xs : List (String × A))
      → (register kept duplicate seen xs).1 ≡ []
      → Unseen seen xs
        × UniqueKeys xs
        × All (λ e. kept e ≡ []) xs
        × ((register kept duplicate seen xs).0 ≡ xs)
  register-clean seen [] h = (tt, tt, tt, refl)
  register-clean seen (e ∷ rest) h = elim (Bool-cases (includes e.0 seen)) [
    | inl t ↦ absurd (cons-ne-nil (duplicate e) _ (rw t at h))
    | inr f ↦
        let (none_kept, none_fresh) = append-eq-nil (kept e) _ (rw f at h) in
        let (unseen, unique, quiet, same) = register-clean (e.0 ∷ seen) rest none_fresh in
        (
          (f, All-weaken _ _ rest (λ a u. (Unseen-of-cons e.0 seen a u).1) unseen),
          (All-weaken _ _ rest (λ a u. (Unseen-of-cons e.0 seen a u).0) unseen, unique),
          (none_kept, quiet),
          rw f (ap (λ t. e ∷ t) same),
        )
  ]

  pub register_of_unique :
      (seen : List String) (xs : List (String × A))
      → Unseen seen xs
      → UniqueKeys xs
      → All (λ e. kept e ≡ []) xs
      → register kept duplicate seen xs ≡ (xs, [])
  register_of_unique seen [] h u q = refl
  register_of_unique seen (e ∷ rest) (f, h) (apart, u) (k, q) =
      rw
        (
          f,
          k,
          register_of_unique (e.0 ∷ seen) rest
              (All-weaken _ _ rest (Unseen_cons e.0 seen) (All-both _ _ rest apart h)) u q,
        )
        refl
