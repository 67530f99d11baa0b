-- ===== src/Registry/Loops.antt =====
-- registry/protocol-semantics.ts: when each check is silent.
use dokion.Base.{
  ℕ, String, Bool, true, false, not, ◌&&◌, List, [], ◌∷◌, ◌++◌, map, Option, none, some, ◌==◌,
  includes, ◌≡◌, ◌≢◌, ◌↔◌, ◌⊎◌, inl, inr, refl, sym, ap, subst, ◌∙◌, All-weaken, All-both, In,
  UniqueKeys, Unseen, Unseen-of-cons, Unseen_cons, append-eq-nil, Bool-cases, includes-In,
  includes_of_In, In-map, if◌then◌else◌, arith, eq_iff,
}
use dokion.Model.Json.{Fields}
use dokion.Registry.{
  ProtocolSemanticError, word_at, keyed, missing_from, with_entry, repeat_error, enter,
  duplicate_name, duplicate_id, source_errors, same_text, digest_errors,
}
use dokion.Registry.Sound.{Agrees}

cons-ne-nil : (x : ProtocolSemanticError) (xs : List ProtocolSemanticError) → x ∷ xs ≢ []
cons-ne-nil x xs h = cc

true-ne-false : true ≢ false
true-ne-false h = cc

pub append_nil_iff : {A : Type 0} (xs ys : List A) → (xs ++ ys ≡ []) ↔ ((xs ≡ []) × (ys ≡ []))
append_nil_iff xs ys = (append-eq-nil xs ys, λ (a, b). rw (a, b) refl)

-- the entries have new words, each once
abbrev pub Fresh : List String → List (String × ℕ) → Type 0
Fresh seen entries = Unseen seen entries × UniqueKeys entries

repeat_error-Fresh :
    (f : String → ProtocolSemanticError) (seen : List String) (o : Option String) (index : ℕ)
    (rest : List (String × ℕ))
    → ((repeat_error seen o f ≡ []) × Fresh (enter seen o) rest)
      ↔ Fresh seen (with_entry o index rest)
repeat_error-Fresh f seen none index rest = (λ p. p.1, λ p. (refl, p))
repeat_error-Fresh f seen (some k) index rest = elim (Bool-cases (includes k seen)) [
  | inl t ↦ (
    λ (quiet, _). absurd (cons-ne-nil (f k) [] (rw t at quiet)),
    λ ((new, _), _). absurd (true-ne-false (sym t ∙ new)),
  )
  | inr new ↦ rw new (
    λ (_, (unseen, unique)). (
      (refl, All-weaken _ _ rest (λ a u. (Unseen-of-cons k seen a u).1) unseen),
      (All-weaken _ _ rest (λ a u. (Unseen-of-cons k seen a u).0) unseen, unique),
    ),
    λ ((_, unseen), (apart, unique)).
        (refl, (All-weaken _ _ rest (Unseen_cons k seen) (All-both _ _ rest apart unseen), unique)),
  )
]

pub source_errors-Fresh :
    (sources : List (ℕ × Fields)) (names ids : List String) (rest : List (ℕ × Fields))
    → (source_errors sources names ids rest ≡ [])
      ↔ (Fresh names (keyed "name" rest) × Fresh ids (keyed "id" rest))
source_errors-Fresh sources names ids [] = (λ _. ((tt, tt), (tt, tt)), λ _. refl)
source_errors-Fresh sources names ids ((index, fs) ∷ rest) = (
  λ h.
      let (a, more) = (append_nil_iff _ _).0 h in
      let (b, others) = (append_nil_iff _ _).0 more in
      let (p, q) =
        (source_errors-Fresh sources (enter names (word_at "name" fs)) (enter ids (word_at "id" fs))
            rest).0
          others in
      (name.0 (a, p), id.0 (b, q)),
  λ (p, q).
      let (a, p') = name.1 p in
      let (b, q') = id.1 q in
      (append_nil_iff _ _).1 (
        a,
        (append_nil_iff _ _).1 (
          b,
          (source_errors-Fresh sources (enter names (word_at "name" fs))
                (enter ids (word_at "id" fs)) rest).1
              (p', q'),
        ),
      ),
)
  where
    name :
        ((repeat_error names (word_at "name" fs) (duplicate_name sources index) ≡ [])
          × Fresh (enter names (word_at "name" fs)) (keyed "name" rest))
        ↔ Fresh names (keyed "name" ((index, fs) ∷ rest))
    name =
        repeat_error-Fresh (duplicate_name sources index) names (word_at "name" fs) index
          (keyed "name" rest)

    id :
        ((repeat_error ids (word_at "id" fs) (duplicate_id sources index) ≡ [])
          × Fresh (enter ids (word_at "id" fs)) (keyed "id" rest))
        ↔ Fresh ids (keyed "id" ((index, fs) ∷ rest))
    id =
        repeat_error-Fresh (duplicate_id sources index) ids (word_at "id" fs) index
          (keyed "id" rest)

same_text-eq : (o : Option String) (e : String) → (same_text o e ≡ true) ↔ (o ≡ some e)
same_text-eq none e = (λ h. cc, λ h. cc)
same_text-eq (some t) e = (λ h. ap some ((eq_iff t e).0 h), λ h. ground (arith, h, eq_iff t e))

false_iff : {P : Type 0} (b : Bool) → ((b ≡ true) ↔ P) → ((b ≡ false) ↔ (P → ⊥))
false_iff true h = (λ e. cc, λ no_p. absurd (no_p (h.0 refl)))
false_iff false h = (λ e p. true-ne-false (sym (h.1 p)), λ no_p. refl)

either_map : {P Q R S : Type 0} → (P → Q) → (R → S) → P ⊎ R → Q ⊎ S
either_map f g (inl p) = inl (f p)
either_map f g (inr r) = inr (g r)

either_iff : {P Q R S : Type 0} → P ↔ Q → R ↔ S → (P ⊎ R) ↔ (Q ⊎ S)
either_iff f g = (either_map f.0 g.0, either_map f.1 g.1)

neither : {P Q : Type 0} → (P → ⊥) → (Q → ⊥) → P ⊎ Q → ⊥
neither f g (inl p) = f p
neither f g (inr q) = g q

-- the two tests on a state of integrity: `m` and `w` are what it says, `t` that the digests agree
two_tests :
    (a b : ProtocolSemanticError) (m w t : Bool)
    → ((if m && not t then a ∷ [] else if w && t then b ∷ [] else []) ≡ [])
      ↔ (((m ≡ false) ⊎ (t ≡ true)) × ((w ≡ false) ⊎ (t ≡ false)))
two_tests a b true w false =
    (λ h. cc, λ h. absurd (neither true-ne-false (λ e. true-ne-false (sym e)) h.0))
two_tests a b true true true = (λ h. cc, λ h. absurd (neither true-ne-false true-ne-false h.1))
two_tests a b true false true = (λ _. (inr refl, inl refl), λ _. refl)
two_tests a b false true true = (λ h. cc, λ h. absurd (neither true-ne-false true-ne-false h.1))
two_tests a b false false true = (λ _. (inl refl, inl refl), λ _. refl)
two_tests a b false true false = (λ _. (inl refl, inr refl), λ _. refl)
two_tests a b false false false = (λ _. (inl refl, inr refl), λ _. refl)

pub digest_errors-Agrees :
    (name : String) (e o s : Option String) → (digest_errors name e o s ≡ []) ↔ Agrees e o s
digest_errors-Agrees name none o s = (λ _. tt, λ _. refl)
digest_errors-Agrees name (some e) o none = (λ _. tt, λ _. refl)
digest_errors-Agrees name (some e) o (some s) =
    let (there, back) = two_tests _ _ (s == "MATCH") (s == "MISMATCH") (same_text o e) in
    let first = either_iff (false_iff (s == "MATCH") (eq_iff s "MATCH")) (same_text-eq o e) in
    let second =
      either_iff (false_iff (s == "MISMATCH") (eq_iff s "MISMATCH"))
        (false_iff (same_text o e) (same_text-eq o e)) in
    (λ h. let (a, b) = there h in (first.0 a, second.0 b), λ (a, b). back (first.1 a, second.1 b))

some-eq : {a b : String} → some a ≡ some b → a ≡ b
some-eq e = cc

includes-keys :
    (path : String) (seen : List (String × ℕ))
    → (includes path (map (λ e. e.0) seen) ≡ true) ↔ ((index : ℕ) × In (path, index) seen)
includes-keys path seen = (
  λ h. named seen (includes-In path (map (λ e. e.0) seen) h),
  λ (n, i). includes_of_In path (map (λ e. e.0) seen) (In-map (λ e. e.0) (path, n) seen i),
)
  where
    named :
        (seen : List (String × ℕ))
        → In path (map (λ e. e.0) seen)
        → (index : ℕ) × In (path, index) seen
    named [] i = elim i [ ]
    named ((k, n) ∷ rest) (inl e) = (n, inl (ap (λ t. (t, n)) e))
    named ((k, n) ∷ rest) (inr i) = let (m, j) = named rest i in (m, inr j)

pub missing_from-Listed :
    (seen : List (String × ℕ)) (name : String) (o : Option String)
    → (missing_from seen name o ≡ [])
      ↔ ((o ≡ none) ⊎ ((path : String) × (o ≡ some path) × (index : ℕ) × In (path, index) seen))
missing_from-Listed seen name none = (λ _. inl refl, λ _. refl)
missing_from-Listed seen name (some path) =
    elim (Bool-cases (includes path (map (λ e. e.0) seen))) [
      | inl t ↦ (
        λ _. let (n, j) = (includes-keys path seen).0 t in inr (path, refl, n, j),
        λ _. rw t refl,
      )
      | inr f ↦ (λ h. absurd (cons-ne-nil _ _ (rw f at h)), λ h. absurd (not_listed f h))
    ]
  where
    not_listed :
        includes path (map (λ e. e.0) seen) ≡ false
        → (some path ≡ none)
          ⊎ ((q : String) × (some path ≡ some q) × (index : ℕ) × In (q, index) seen)
        → ⊥
    not_listed f (inl e) = cc
    not_listed f (inr (q, e, n, i)) =
        true-ne-false (
          sym ((includes-keys path seen).1 (n, subst (λ t. In (t, n) seen) (sym (some-eq e)) i))
          ∙ f)
