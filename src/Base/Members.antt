-- ===== src/Base/Members.antt =====
-- Membership in what the array methods give.
use mathlib.Core.Path.{◌≡◌, refl, sym, ap, subst}
use mathlib.Core.Logic.{inl, inr}
use mathlib.Core.Bool.{Bool, true, false}
use mathlib.Core.List.{List, [], ◌∷◌, ◌++◌, map}
use native.Mathlib.Omega.{arith}
use dokion.Base.Tests.{Bool-cases}
use dokion.Base.Lists.{some_of, keep, is_empty, All}
use dokion.Base.Keyed.{In}

pub some_of-In :
    {A : Type 0} (p : A → Bool) (xs : List A)
    → some_of p xs ≡ true
    → (x : A) × In x xs × (p x ≡ true)
some_of-In p [] h = cc
some_of-In p (x ∷ xs) h = elim (Bool-cases (p x)) [
  | inl t ↦ (x, inl refl, t)
  | inr f ↦ let (y, i, t) = some_of-In p xs (rw f at h) in (y, inr i, t)
]

pub some_of_member :
    {A : Type 0} (p : A → Bool) (x : A) (xs : List A) → In x xs → p x ≡ true → some_of p xs ≡ true
some_of_member p x [] i t = elim i [ ]
some_of_member p x (y ∷ ys) (inl e) t = rw (subst (λ z. p z ≡ true) (sym e) t) refl
some_of_member p x (y ∷ ys) (inr i) t = ground (arith, some_of_member p x ys i t)

pub In-keep :
    {A : Type 0} (p : A → Bool) (x : A) (xs : List A) → In x (keep p xs) → In x xs × (p x ≡ true)
In-keep p x [] i = elim i [ ]
In-keep p x (y ∷ ys) i = elim (Bool-cases (p y)) [
  | inl t ↦ first t (rw t at i) (In-keep p x ys)
  | inr f ↦ let (j, t) = In-keep p x ys (rw f at i) in (inr j, t)
]
  where
    first :
        p y ≡ true
        → In x (y ∷ keep p ys)
        → (In x (keep p ys) → In x ys × (p x ≡ true))
        → In x (y ∷ ys) × (p x ≡ true)
    first t (inl e) go = (inl e, subst (λ z. p z ≡ true) e t)
    first t (inr j) go = let (k, u) = go j in (inr k, u)

pub In-keep_of :
    {A : Type 0} (p : A → Bool) (x : A) (xs : List A) → In x xs → p x ≡ true → In x (keep p xs)
In-keep_of p x [] i t = elim i [ ]
In-keep_of p x (y ∷ ys) (inl e) t = rw (subst (λ z. p z ≡ true) (sym e) t) (inl e)
In-keep_of p x (y ∷ ys) (inr i) t = elim (Bool-cases (p y)) [
  | inl u ↦ rw u (inr (In-keep_of p x ys i t))
  | inr f ↦ rw f (In-keep_of p x ys i t)
]

pub is_empty-In : {A : Type 0} (x : A) (xs : List A) → In x xs → is_empty xs ≡ false
is_empty-In x [] i = elim i [ ]
is_empty-In x (y ∷ ys) i = refl

pub In-append_left : {A : Type 0} (x : A) (xs ys : List A) → In x xs → In x (xs ++ ys)
In-append_left x [] ys i = elim i [ ]
In-append_left x (z ∷ zs) ys (inl e) = inl e
In-append_left x (z ∷ zs) ys (inr i) = inr (In-append_left x zs ys i)

pub In-append_right : {A : Type 0} (x : A) (xs ys : List A) → In x ys → In x (xs ++ ys)
In-append_right x [] ys i = i
In-append_right x (z ∷ zs) ys i = inr (In-append_right x zs ys i)

pub In-map : {A B : Type 0} (f : A → B) (x : A) (xs : List A) → In x xs → In (f x) (map f xs)
In-map f x [] i = elim i [ ]
In-map f x (y ∷ ys) (inl e) = inl (ap f e)
In-map f x (y ∷ ys) (inr i) = inr (In-map f x ys i)

pub All-each : {A : Type 0} (P : A → Type 0) (xs : List A) → ((a : A) → In a xs → P a) → All P xs
All-each P [] h = tt
All-each P (x ∷ xs) h = (h x (inl refl), All-each P xs (λ a i. h a (inr i)))

pub keep-empty :
    {A : Type 0} (p : A → Bool) (x : A) (xs : List A)
    → is_empty (keep p xs) ≡ true
    → In x xs
    → p x ≡ false
keep-empty p x xs h i = elim (Bool-cases (p x)) [
  | inl t ↦ cc (h, is_empty-In x (keep p xs) (In-keep_of p x xs i t))
  | inr f ↦ f
]

pub keep_none :
    {A : Type 0} (p : A → Bool) (xs : List A) → All (λ x. p x ≡ false) xs → keep p xs ≡ []
keep_none p [] h = refl
keep_none p (x ∷ xs) (f, h) = rw f (keep_none p xs h)
