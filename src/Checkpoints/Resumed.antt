-- ===== src/Checkpoints/Resumed.antt =====
-- state/checkpoint.ts and invocation/replay-policy.ts: sequences of calls, and a side effect begun
-- before a resume.
use dokion.Base.{
  String, true, false, List, [], ◌∷◌, map, Option, none, some, ◌==◌, ◌≡◌, refl, sym, ap, subst, ◌⊎◌,
  inl, inr, Bool-cases, Option-cases, eq_iff, In, All, All_In, In-sort, In-keep_of, ok, Post,
  Post-weaken, Post-world, Triple, Triple-bind, Triple-gets, Triple-pure, Triple-post, Keeps-lift,
}
use dokion.Checkpoints.State.{
  SideEffectIntent, SideEffectOutcome, SideEffectCheckpoint, SideEffectStatus, Runtime,
  CheckpointFile, holds, Files, file_at, require_date, started, started_unknown, completed, failed,
}
use dokion.Checkpoints.Begin.{begin_side_effect, replay_safe, assert_invocation_replay_safe}
use dokion.Checkpoints.Complete.{
  is_started, complete_side_effect, checkpoint_files, recover_each, recover_started_side_effects,
}
use dokion.Checkpoints.Later.{FileLater, Later, Later-refl, Later-trans}
use dokion.Checkpoints.Calls.{
  Settled, load_checkpoint-Loaded, recover_current-Later, complete_side_effect-Later,
}
use dokion.Checkpoints.Begun.{Begun, begin_side_effect-Begun}

Settled-Later : (w v : Files) (id : String) → Later w v → Settled w id → Settled v id
Settled-Later w v id l (c, at, s) =
    let (d, at', h) = subst (λ x. FileLater x (file_at id v)) at (l id) in (d, at', h.left s)

module _ (p : Runtime) where
  recover_each-Later :
      (at : String) (ids : List String) (w : Files)
      → Triple
          (Later w)
          (recover_each p at ids)
          (λ _ v. Later w v × All (Settled v) ids)
          (λ _. Later w)
  unfolding recover_each
  recover_each-Later at [] w = Triple-pure [] (λ v h. (h, tt))
  recover_each-Later at (id ∷ ids) w = Triple-bind _ _ (load_checkpoint-Loaded p id) (λ c.
      Triple-bind _ _ (recover_current-Later p w at id c) (λ these.
        Triple-bind {Q = λ _ v. Later w v × All (Settled v) (id ∷ ids)} _ _
          (record {
            at = λ v (l, s).
                Post-weaken _ _ _ _ (recover_each p at ids v)
                  (λ _ u (k, h). (Later-trans w v u l k, (Settled-Later v u id k s, h)))
                  (λ _ u k. Later-trans w v u l k)
                  ((recover_each-Later at ids v).at v (Later-refl v));
          })
          (λ others. Triple-pure _ (λ v h. h))))

  pub recover_started_side_effects-Settled :
      (o : Option String) (w : Files)
      → Triple
          (λ v. v ≡ w)
          (recover_started_side_effects p o)
          (λ _ v. Later w v × All (Settled v) (checkpoint_files p w))
          (λ _. Later w)
  unfolding recover_started_side_effects
  recover_started_side_effects-Settled o w =
      Triple-bind {Q = λ _ v. v ≡ w} _ _
        (Triple-post _ (λ _ v h. h) (λ _ v h. subst (Later w) (sym h) (Later-refl w))
          (Keeps-lift (require_date p o)))
        (λ at.
          Triple-bind {Q = λ ids v. Later w v × (ids ≡ checkpoint_files p w)} _ _
            (Triple-gets (checkpoint_files p)
              (λ v h. (subst (Later w) (sym h) (Later-refl w), ap (checkpoint_files p) h)))
            (λ ids. record {
              at = λ v (l, e).
                  Post-weaken _ _ _ _ (recover_each p at ids v)
                    (λ _ u (k, h). (k, subst (All (Settled u)) e h)) (λ _ u k. k)
                    ((recover_each-Later at ids w).at v l);
            }))

-- the calls of one project's processes, each with what its runtime answers
pub data Call : Type 0 where
  begins : SideEffectIntent → Call
  completes : String → SideEffectOutcome → Call
  recovers : Option String → Call

-- the files after a call, whether it returns or throws
unfoldable pub apply : Runtime → Call → Files → Files
apply p (begins i) w = (begin_side_effect p i w).1
apply p (completes id o) w = (complete_side_effect p id o w).1
apply p (recovers at) w = (recover_started_side_effects p at w).1

unfoldable pub replay : List (Runtime × Call) → Files → Files
replay [] w = w
replay ((p, c) ∷ cs) w = replay cs (apply p c w)

apply-Later : (p : Runtime) (c : Call) (w : Files) → Later w (apply p c w)
unfolding apply
apply-Later p (begins i) w = Post-world _ (begin_side_effect p i w) (
    Post-weaken (Begun p w) (λ _. Later w) (λ _. Later w) (λ _. Later w) _ (λ c v h. h.later)
      (λ e v h. h) ((begin_side_effect-Begun p w i).at w refl))
apply-Later p (completes id o) w =
    Post-world _ (complete_side_effect p id o w)
      ((complete_side_effect-Later p w id o).at w (Later-refl w))
apply-Later p (recovers at) w = Post-world _ (recover_started_side_effects p at w) (
    Post-weaken (λ _ v. Later w v × All (Settled v) (checkpoint_files p w)) (λ _. Later w)
      (λ _. Later w) (λ _. Later w) _ (λ c v h. h.0) (λ e v h. h)
      ((recover_started_side_effects-Settled p at w).at w refl))

-- Whatever calls follow, a checkpoint that is there keeps its origin and its file, its revision does not fall,
-- one that is COMPLETED or FAILED does not change, and one that is not STARTED never is again.
pub replay-Later : (cs : List (Runtime × Call)) (w : Files) → Later w (replay cs w)
unfolding replay
replay-Later [] w = Later-refl w
replay-Later ((p, c) ∷ cs) w =
    Later-trans w (apply p c w) _ (apply-Later p c w) (replay-Later cs (apply p c w))

In-keys :
    (k : String) (f : CheckpointFile) (w : Files) → file_at k w ≡ some f → In k (map (λ e. e.0) w)
In-keys k f [] h = cc
In-keys k f ((j, g) ∷ rest) h = elim (Bool-cases (j == k)) [
  | inl t ↦ inl ((eq_iff j k).0 t)
  | inr n ↦ inr (In-keys k f rest (rw n at h))
]

safe_started :
    (c : SideEffectCheckpoint)
    → assert_invocation_replay_safe c ≡ ok tt
    → is_started c.status ≡ true
unfolding assert_invocation_replay_safe
safe_started c h = only c.status h
  where
    only : (s : SideEffectStatus) → replay_safe s ≡ ok tt → is_started s ≡ true
    only started h = refl
    only started_unknown h = cc
    only completed h = cc
    only failed h = cc

no_origin :
    (u : Files) (c : SideEffectCheckpoint)
    → Settled u c.id
    → (file_at c.id u ≡ none) ⊎ (file_at c.id u ≡ some (holds c))
    → is_started c.status ≡ false
no_origin u c (d, at, s) (inl n) = cc
no_origin u c (d, at, s) (inr h) = cc

-- After the recovery of a resume, whatever calls follow, a checkpoint that a side effect's begin returns and that
-- the replay policy accepts is one for which there was no file before the recovery: no side effect that
-- an earlier process had begun is started again.
pub recover_started_side_effects_lem :
    (p : Runtime) (o : Option String) (w v : Files) (recovered : List SideEffectCheckpoint)
    → recover_started_side_effects p o w ≡ (ok recovered, v)
    → (cs : List (Runtime × Call)) (now : String) (i : SideEffectIntent) (c : SideEffectCheckpoint)
      (u : Files)
    → begin_side_effect (record p { now = now }) i (replay cs v) ≡ (ok c, u)
    → assert_invocation_replay_safe c ≡ ok tt
    → file_at c.id w ≡ none
recover_started_side_effects_lem p o w v recovered done cs now i c u begun safe =
    elim (Option-cases (file_at c.id w)) [
      | inl n ↦ n
      | inr (f, there) ↦
          let (l, settled) =
            subst (Post (λ _ x. Later w x × All (Settled x) (checkpoint_files p w)) (λ _. Later w))
              done ((recover_started_side_effects-Settled p o w).at w refl) in
          let b =
            subst (Post (Begun (record p { now = now }) (replay cs v)) (λ _. Later (replay cs v)))
              begun
              ((begin_side_effect-Begun (record p { now = now }) (replay cs v) i).at (replay cs v)
                refl) in
          let known =
            In-sort c.id _
              (In-keep_of p.is_checkpoint_id c.id _ (In-keys c.id f w there) b.known) in
          cc (
            safe_started c safe,
            no_origin (replay cs v) c
                (Settled-Later v (replay cs v) c.id (replay-Later cs v)
                  (All_In (Settled v) c.id (checkpoint_files p w) settled known))
                b.origin,
          )
    ]
