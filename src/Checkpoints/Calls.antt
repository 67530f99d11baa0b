-- ===== src/Checkpoints/Calls.antt =====
-- state/checkpoint.ts: what a call of each operation leaves of the files, and sequences of calls.
use dokion.Base.{
  String, true, false, ◌==◌, Bool-cases, List, [], Option, none, some, ◌≡◌, refl, sym, subst, ◌∙◌,
  inl, inr, arith, eq_iff, Result, ok, Triple, Triple-bind, Triple-lift, Triple-gets, Triple-pure,
  Triple-post, Triple-if, Keeps, Keeps-lift, keeps_rules, ◌>>=◌, pure, lift,
}
use dokion.Checkpoints.State.{
  SideEffectIntent, OutcomeStatus, SideEffectOutcome, SideEffectCheckpoint, Runtime, require_date,
  SideEffectStatus, completed, failed, CheckpointFile, unreadable, holds, Files, file_at, put,
  read_checkpoint, load_checkpoint, started, started_unknown, outcome_completed, outcome_failed,
}
use dokion.Checkpoints.Begin.{stable_intent}
use dokion.Checkpoints.Complete.{
  NormalizedOutcome, normalized_evidence, is_terminal, is_started, normalize_status,
  normalize_outcome, complete_side_effect, recover_current, completed_as, observed_unknown,
  write_outcome,
}
use dokion.Checkpoints.Later.{Evolves, FileLater, Later, Later-trans, put-Later, file_at-put}

-- a checkpoint is read from a file that holds it, under its own id
pub record Loaded (id : String) (c : SideEffectCheckpoint) (w : Files) : Type 0 where
  pub file : file_at id w ≡ some (holds c)
  pub id_eq : c.id ≡ id

-- the file holds a checkpoint that is not `STARTED`
abbrev pub Settled : Files → String → Type 0
Settled w id =
    (c : SideEffectCheckpoint) × (file_at id w ≡ some (holds c)) × (is_started c.status ≡ false)

read_checkpoint_ok :
    (id : String) (x : Option CheckpointFile) (c : SideEffectCheckpoint)
    → read_checkpoint id x ≡ ok c
    → (x ≡ some (holds c)) × (c.id ≡ id)
read_checkpoint_ok id none c h = cc
read_checkpoint_ok id (some unreadable) c h = cc
read_checkpoint_ok id (some (holds d)) c h = elim (Bool-cases (d.id == id)) [
  | inl t ↦ ground (arith, eq_iff d.id id)
  | inr n ↦ ground arith
]

module _ (p : Runtime) where
  pub load_checkpoint-Loaded :
      {P : Files → Type 0} (id : String)
      → Triple P (load_checkpoint p id) (λ c v. P v × Loaded id c v) (λ _. P)
  unfolding load_checkpoint
  load_checkpoint-Loaded {P = P} id = Triple-bind _ _ (Keeps-lift _) (λ _.
      Triple-bind {Q = λ x v. P v × (file_at id v ≡ x)} _ _
        (Triple-gets (file_at id) (λ w h. (h, refl)))
        (λ x.
          Triple-lift _
            (λ c e v (h, at).
              let (is, same) = read_checkpoint_ok id x c e in
              (h, record { file = at ∙ is; id_eq = same }))
            (λ e _ v (h, at). h)))

  pub stable_intent-Keeps :
      {P : Files → Type 0} (i : SideEffectIntent) → Keeps P (stable_intent p i)
  unfolding stable_intent
  stable_intent-Keeps i = search keeps_rules depth 16

  status-Keeps :
      {A : Type 0} {P : Files → Type 0} (r : Result A) (f : A → NormalizedOutcome)
      → ((a : A) → is_started (f a).status ≡ false)
      → Triple P (lift r >>= λ a. pure (f a)) (λ n v. P v × (is_started n.status ≡ false)) (λ _. P)
  status-Keeps r f h = Triple-bind _ _ (Keeps-lift r) (λ a. Triple-pure (f a) (λ v k. (k, h a)))

  normalize_status-Keeps :
      {P : Files → Type 0} (at : String) (evidence : List String) (s : OutcomeStatus)
      → Triple P
          (normalize_status p at evidence s)
          (λ n v. P v × (is_started n.status ≡ false))
          (λ _. P)
  unfolding ◌>>=◌
  normalize_status-Keeps at evidence (outcome_completed digest) = status-Keeps _ _ (λ d. refl)
  normalize_status-Keeps at evidence (outcome_failed code) = status-Keeps _ _ (λ d. refl)

  normalize_outcome-Keeps :
      {P : Files → Type 0} (o : SideEffectOutcome)
      → Triple P (normalize_outcome p o) (λ n v. P v × (is_started n.status ≡ false)) (λ _. P)
  unfolding normalize_outcome
  normalize_outcome-Keeps o = Triple-bind _ _ (Keeps-lift (require_date p o.at)) (λ at.
      Triple-bind _ _ (Keeps-lift (normalized_evidence p o.evidence))
        (λ evidence. normalize_status-Keeps at evidence o.status))

  -- a write over a checkpoint that was read
  write-Later :
      (id : String) (c d : SideEffectCheckpoint) (w v : Files)
      → Loaded id c v
      → Evolves c d
      → Later w v
      → Later w (put id (holds d) v)
  write-Later id c d w v l h k =
      Later-trans w v _ k
        (put-Later id d v (subst (λ x. FileLater x (some (holds d))) (sym l.file) (d, refl, h)))

  completed_as-Evolves :
      (c : SideEffectCheckpoint) (n : NormalizedOutcome)
      → is_terminal c.status ≡ false
      → is_started n.status ≡ false
      → Evolves c (completed_as c n)
  completed_as-Evolves c n open_yet done = record {
    origin = refl;
    revision = omega arith;
    terminal = λ t. cc;
    left = λ f. done;
  }

  observed_unknown-Evolves :
      (at : String) (c : SideEffectCheckpoint)
      → is_started c.status ≡ true
      → Evolves c (observed_unknown at c)
  observed_unknown-Evolves at c s = record {
    origin = refl;
    revision = omega arith;
    terminal = λ t. cc (t, apart c.status s);
    left = λ f. refl;
  }
    where
      apart : (x : SideEffectStatus) → is_started x ≡ true → is_terminal x ≡ false
      apart started s = refl
      apart started_unknown s = refl
      apart completed s = cc
      apart failed s = cc

  pub complete_side_effect-Later :
      (w : Files) (id : String) (o : SideEffectOutcome)
      → Keeps (Later w) (complete_side_effect p id o)
  unfolding complete_side_effect write_outcome ◌>>=◌
  complete_side_effect-Later w id o = Triple-bind _ _ (load_checkpoint-Loaded id) (λ c.
      Triple-bind {Q = λ n v. (Later w v × Loaded id c v) × (is_started n.status ≡ false)} _ _
        (Triple-post _ (λ n v h. h) (λ e v h. h.0) (normalize_outcome-Keeps o))
        (λ n.
          Triple-if (is_terminal c.status) _ _
            (λ t. Triple-lift _ (λ a _ v h. h.0.0) (λ e _ v h. h.0.0))
            (λ open_yet. record {
              at = λ v h.
                  write-Later id c (completed_as c n) w v h.0.1
                    (completed_as-Evolves c n open_yet h.1) h.0.0;
            })))

  -- of a file that holds a checkpoint which is not `STARTED`
  pub recover_current-Later :
      (w : Files) (at id : String) (c : SideEffectCheckpoint)
      → Triple
          (λ v. Later w v × Loaded id c v)
          (recover_current at id c)
          (λ _ v. Later w v × Settled v id)
          (λ _. Later w)
  unfolding recover_current ◌>>=◌
  recover_current-Later w at id c =
      Triple-if (is_started c.status) _ _
        (λ t. record {
          at = λ v (h, l). (
            write-Later id c (observed_unknown at c) w v l (observed_unknown-Evolves at c t) h,
            (observed_unknown at c, file_at-put id (holds (observed_unknown at c)) v, refl),
          );
        })
        (λ n. Triple-pure [] (λ v (h, l). (h, (c, l.file, n))))
