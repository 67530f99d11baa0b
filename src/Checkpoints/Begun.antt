-- ===== src/Checkpoints/Begun.antt =====
-- state/checkpoint.ts: what `beginSideEffect` returns and leaves.
use dokion.Base.{
  Bool, true, false, Option, none, some, ◌≡◌, refl, sym, subst, ◌⊎◌, inl, inr, ok, Triple,
  Triple-bind, Triple-lift, Triple-gets, Triple-post, ◌>>=◌,
}
use dokion.Checkpoints.State.{
  SideEffectIntent, SideEffectCheckpoint, Runtime, CheckpointFile, holds, Files, file_at, put,
  require,
}
use dokion.Checkpoints.Begin.{StableIntent, begin_at, begin_side_effect, new_checkpoint}
use dokion.Checkpoints.Later.{FileLater, Later, Later-refl, put-Later}
use dokion.Checkpoints.Calls.{Loaded, load_checkpoint-Loaded, stable_intent-Keeps}

-- A checkpoint that was returned: its id fits the pattern, and before the call there was no file for it, or
-- this file held it.
pub record Begun (p : Runtime) (w : Files) (c : SideEffectCheckpoint) (v : Files) : Type 0 where
  pub later : Later w v
  pub known : p.is_checkpoint_id c.id ≡ true
  pub origin : (file_at c.id w ≡ none) ⊎ (file_at c.id w ≡ some (holds c))

require_ok : {A : Type 0} (b : Bool) (a c : A) → require b a ≡ ok c → (b ≡ true) × (c ≡ a)
require_ok true a c h = (refl, cc)
require_ok false a c h = cc

module _ (p : Runtime) (w : Files) where
  abbrev Before : StableIntent → Files → Type 0
  Before s v = (v ≡ w) × (p.is_checkpoint_id s.id ≡ true)

  same-Later : (v : Files) → v ≡ w → Later w v
  same-Later v e = subst (Later w) (sym e) (Later-refl w)

  begin_at-Begun :
      (s : StableIntent) (x : Option CheckpointFile)
      → Triple (λ v. Before s v × (file_at s.id v ≡ x)) (begin_at p s x) (Begun p w) (λ _. Later w)
  unfolding begin_at ◌>>=◌
  begin_at-Begun s none = record {
    at = λ v ((e, k), n). record {
      later =
          subst (λ u. Later u (put s.id (holds (new_checkpoint s)) v)) e
            (put-Later s.id (new_checkpoint s) v
              (subst (λ y. FileLater y (some (holds (new_checkpoint s)))) (sym n) tt));
      known = k;
      origin = inl (subst (λ u. file_at s.id u ≡ none) e n);
    };
  }
  begin_at-Begun s (some f) =
      Triple-bind _ _
        (Triple-post {Q = λ c v. (Before s v × (file_at s.id v ≡ some f)) × Loaded s.id c v} _
          (λ c v h. h) (λ e v h. same-Later v h.0.0) (load_checkpoint-Loaded p s.id))
        (λ c.
          Triple-lift _ (λ d e v (((same, k), n), l). found c d v same k l (require_ok _ c d e).1)
            (λ e _ v (((same, k), n), l). same-Later v same))
    where
      found :
          (c d : SideEffectCheckpoint) (v : Files)
          → v ≡ w
          → p.is_checkpoint_id s.id ≡ true
          → Loaded s.id c v
          → d ≡ c
          → Begun p w d v
      found c d v same k l e =
          subst (λ b. Begun p w b v) (sym e)
            (record {
              later = same-Later v same;
              known = subst (λ i. p.is_checkpoint_id i ≡ true) (sym l.id_eq) k;
              origin = inr (
                  subst (λ i. file_at i w ≡ some (holds c)) (sym l.id_eq)
                    (subst (λ u. file_at s.id u ≡ some (holds c)) same l.file));
            })

  pub begin_side_effect-Begun :
      (i : SideEffectIntent)
      → Triple (λ v. v ≡ w) (begin_side_effect p i) (Begun p w) (λ _. Later w)
  unfolding begin_side_effect
  begin_side_effect-Begun i =
      Triple-bind {Q = λ s v. v ≡ w} _ _
        (Triple-post _ (λ s v h. h) (λ e v h. same-Later v h) (stable_intent-Keeps p i))
        (λ s.
          Triple-bind {Q = λ _. Before s} _ _
            (Triple-lift (require (p.is_checkpoint_id s.id) tt)
              (λ t e v h. (h, (require_ok _ tt t e).0)) (λ e _ v h. same-Later v h))
            (λ t.
              Triple-bind {Q = λ x v. Before s v × (file_at s.id v ≡ x)} _ _
                (Triple-gets (file_at s.id) (λ v h. (h, refl))) (begin_at-Begun s)))
