-- ===== src/Base/Effects.antt =====
-- Asynchronous methods that change the world and may throw. What was written before an exception
-- stays written, so the world comes back beside the fault too.
use Prim.Native.String.{String}
use mathlib.Core.Path.{◌≡◌, refl}
use mathlib.Core.Logic.{◌⊎◌, inl, inr}
use mathlib.Core.Bool.{Bool, true, false}
use dokion.Base.Tests.{if◌then◌else◌}

-- core/errors.ts: the codes that the modelled code throws or tests
pub data ErrorCode : Type 0 where
  no_active_playbook invalid_json invalid_playbook unpinned_capability : ErrorCode
  invalid_state invalid_event state_not_found state_revision_conflict : ErrorCode
  dependency_unmet unsupported_execution dirty_worktree_blocked : ErrorCode
  run_locked run_lock_stale invalid_run_lock state_write_locked goal_not_found : ErrorCode

-- A thrown value: a `DokionError` by its code, the `PLAYBOOK_TAINTED` one with the observed digest
-- of its details, or any other error with its message.
pub data Fault : Type 0 where
  dokion_error : ErrorCode → Fault
  playbook_tainted : (observed : String) → Fault
  plain_error : (message : String) → Fault

pub data Result {ℓ} (A : Type ℓ) : Type ℓ where
  ok : A → Result A
  err : Fault → Result A

pub Result-cases {ℓ} :
    {A : Type ℓ} (r : Result A) → ((a : A) × (r ≡ ok a)) ⊎ ((e : Fault) × (r ≡ err e))
Result-cases (ok a) = inl (a, refl)
Result-cases (err e) = inr (e, refl)

abbrev pub Exec {ℓ} : Type ℓ → Type ℓ → Type ℓ
Exec S A = S → Result A × S

module _ {ℓ} {S A : Type ℓ} where
  unfoldable pub pure : A → Exec S A
  pure a w = (ok a, w)

  unfoldable pub throw : Fault → Exec S A
  throw e w = (err e, w)

  -- a computation that may throw and leaves the world alone
  unfoldable pub lift : Result A → Exec S A
  lift r w = (r, w)

  unfoldable pub gets : (S → A) → Exec S A
  gets f w = (ok (f w), w)

module _ {ℓ} {S A B : Type ℓ} where
  abbrev pub proceed : Result A → (A → Exec S B) → Exec S B
  proceed (ok a) f w = f a w
  proceed (err e) f w = (err e, w)

  infixl 10 ◌>>=◌ ◌>>◌
  -- opening this opens `pure`, `throw`, `lift` and `gets` too
  unfoldable pub ◌>>=◌ : Exec S A → (A → Exec S B) → Exec S B
  unfolding pure throw lift gets
  ◌>>=◌ m f w = let (r, w') = m w in proceed r f w'

  abbrev pub ◌>>◌ : Exec S A → Exec S B → Exec S B
  m >> n = m >>= λ _. n

-- What holds after a call: `Q` of the value and the world, or `E` of the fault and the world.
abbrev pub Post {ℓ} :
    {S A : Type ℓ} → (A → S → Type ℓ) → (Fault → S → Type ℓ) → Result A × S → Type ℓ
Post Q E (ok a, w) = Q a w
Post Q E (err e, w) = E e w

-- From a world with `P`, the call ends as `Q` says if it returns and as `E` says if it throws.
pub record Triple {ℓ} {S A : Type ℓ} (P : S → Type ℓ) (m : Exec S A) (Q : A → S → Type ℓ)
    (E : Fault → S → Type ℓ) : Type ℓ where
  pub at : (w : S) → P w → Post Q E (m w)

module _ {ℓ} {S A : Type ℓ} {P : S → Type ℓ} {Q : A → S → Type ℓ} {E : Fault → S → Type ℓ} where
  pub Triple-pure : (a : A) → ((w : S) → P w → Q a w) → Triple P (pure a) Q E
  unfolding pure
  Triple-pure a h = record { at = h }

  pub Triple-throw : (e : Fault) → ((w : S) → P w → E e w) → Triple P (throw e) Q E
  unfolding throw
  Triple-throw e h = record { at = h }

  pub Triple-gets : (f : S → A) → ((w : S) → P w → Q (f w) w) → Triple P (gets f) Q E
  unfolding gets
  Triple-gets f h = record { at = h }

  pub Triple-lift :
      (r : Result A)
      → ((a : A) → r ≡ ok a → (w : S) → P w → Q a w)
      → ((e : Fault) → r ≡ err e → (w : S) → P w → E e w)
      → Triple P (lift r) Q E
  unfolding lift
  Triple-lift (ok a) h k = record { at = h a refl }
  Triple-lift (err e) h k = record { at = k e refl }

  pub Triple-if :
      (b : Bool) (m n : Exec S A)
      → (b ≡ true → Triple P m Q E)
      → (b ≡ false → Triple P n Q E)
      → Triple P (if b then m else n) Q E
  Triple-if true m n h k = h refl
  Triple-if false m n h k = k refl

  pub Triple-pre :
      {P' : S → Type ℓ} (m : Exec S A) → ((w : S) → P w → P' w) → Triple P' m Q E → Triple P m Q E
  Triple-pre m h t = record { at = λ w p. t.at w (h w p) }

pub Post-weaken {ℓ} :
    {S A : Type ℓ} (Q Q' : A → S → Type ℓ) (E E' : Fault → S → Type ℓ) (r : Result A × S)
    → ((a : A) (w : S) → Q a w → Q' a w)
    → ((e : Fault) (w : S) → E e w → E' e w)
    → Post Q E r
    → Post Q' E' r
Post-weaken Q Q' E E' (ok a, w) h k p = h a w p
Post-weaken Q Q' E E' (err e, w) h k p = k e w p

module _ {ℓ} {S A : Type ℓ} {P : S → Type ℓ} {Q Q' : A → S → Type ℓ}
    {E E' : Fault → S → Type ℓ} where
  pub Triple-post :
      (m : Exec S A)
      → ((a : A) (w : S) → Q a w → Q' a w)
      → ((e : Fault) (w : S) → E e w → E' e w)
      → Triple P m Q E
      → Triple P m Q' E'
  Triple-post m h k t = record { at = λ w p. Post-weaken Q Q' E E' (m w) h k (t.at w p) }

module _ {ℓ} {S A B : Type ℓ} {Q : A → S → Type ℓ} {R : B → S → Type ℓ}
    {E : Fault → S → Type ℓ} where
  Post-proceed :
      (f : A → Exec S B) (r : Result A) (w : S)
      → ((a : A) → Triple (Q a) (f a) R E)
      → Post Q E (r, w)
      → Post R E (proceed r f w)
  Post-proceed f (ok a) w h p = (h a).at w p
  Post-proceed f (err e) w h p = p

module _ {ℓ} {S A B : Type ℓ} {P : S → Type ℓ} {Q : A → S → Type ℓ} {R : B → S → Type ℓ}
    {E : Fault → S → Type ℓ} where
  pub Triple-bind :
      (m : Exec S A) (f : A → Exec S B)
      → Triple P m Q E
      → ((a : A) → Triple (Q a) (f a) R E)
      → Triple P (m >>= f) R E
  unfolding ◌>>=◌
  Triple-bind m f t h = record { at = λ w p. let (r, w') = m w in Post-proceed f r w' h (t.at w p) }

-- An invariant, whether the call returns or throws.
abbrev pub Keeps {ℓ} : {S A : Type ℓ} → (S → Type ℓ) → Exec S A → Type ℓ
Keeps P m = Triple P m (λ _. P) (λ _. P)

pub Post-world {ℓ} :
    {S A : Type ℓ} (P : S → Type ℓ) (r : Result A × S) → Post (λ _. P) (λ _. P) r → P r.1
Post-world P (ok a, w) p = p
Post-world P (err e, w) p = p

module _ {ℓ} {S A : Type ℓ} {P : S → Type ℓ} where
  pub Keeps-pure : (a : A) → Keeps P (pure a)
  Keeps-pure a = Triple-pure a (λ w p. p)

  pub Keeps-throw : (e : Fault) → Keeps P (throw {A = A} e)
  Keeps-throw e = Triple-throw e (λ w p. p)

  pub Keeps-gets : (f : S → A) → Keeps P (gets f)
  Keeps-gets f = Triple-gets f (λ w p. p)

  pub Keeps-lift : (r : Result A) → Keeps P (lift r)
  Keeps-lift r = Triple-lift r (λ a _ w p. p) (λ e _ w p. p)

  pub Keeps-if : (b : Bool) (m n : Exec S A) → Keeps P m → Keeps P n → Keeps P (if b then m else n)
  Keeps-if b m n h k = Triple-if b m n (λ _. h) (λ _. k)

  pub Keeps-drop :
      {Q : A → S → Type ℓ} {E : Fault → S → Type ℓ} (m : Exec S A)
      → ((a : A) (w : S) → Q a w → P w)
      → ((e : Fault) (w : S) → E e w → P w)
      → Triple P m Q E
      → Keeps P m
  Keeps-drop m h k t = Triple-post m h k t

module _ {ℓ} {S A B : Type ℓ} {P : S → Type ℓ} where
  pub Keeps-bind :
      (m : Exec S A) (f : A → Exec S B) → Keeps P m → ((a : A) → Keeps P (f a)) → Keeps P (m >>= f)
  Keeps-bind m f h k = Triple-bind m f h k

pub ruleset keeps_rules = (Keeps-pure, Keeps-throw, Keeps-gets, Keeps-lift, Keeps-if, Keeps-bind)
