-- ===== src/Locks/Exclusive.antt =====
-- state/run-lock.ts: no two leases at once, and the mutex that the lock file implements.
use dokion.Base.{
  ◌≡◌, ◌≢◌, refl, sym, subst, ◌∙◌, String, List, [], ◌∷◌, ◌++◌, Option, none, some, inl, inr, ok,
  Result-cases, All, true, Bool-cases, if◌then◌else◌, pure, throw, dokion_error, ErrorCode, ◌>>=◌,
  err, Result, arith, Fault,
}
use dokion.Model.Json.{Json}
use dokion.Locks.Record.{
  RunLockOperation, RunLockRecord, Process, Liveness, live, unknown, stale, process_status, json_of,
  LockFile, absent, holds, read_lock, unreadable,
}
use dokion.Locks.Run.{LockFiles, acquire_run_lock, find_stale, is_stale, remove_lock, new_record}
use dokion.Locks.RunLaws.{AcquireOutcome, acquire_run_lock_lem, read_lock-eq-json_of}
use dokion.Locks.Owners.{
  Recovery, System, Move, acquired, released, found, copied, logged, removed, died, Reachable,
  start, next, Truthful, Undisturbed, AllUndisturbed,
}

-- nobody holds a lease, or one lease is held and the lock file has its record
abbrev pub Exclusive : LockFiles → List RunLockRecord → Type 0
Exclusive files [] = Unit
Exclusive files (r ∷ []) = files.lock ≡ holds (json_of r)
Exclusive files (r ∷ q ∷ rs) = ⊥

-- a lock that one owner at most has at a time
pub data MutexMove : Option RunLockRecord → Option RunLockRecord → Type 0 where
  take : (r : RunLockRecord) → MutexMove none (some r)
  give_up : (r : RunLockRecord) → MutexMove (some r) none
  stay : (o : Option RunLockRecord) → MutexMove o o

abbrev pub owner : List RunLockRecord → Option RunLockRecord
owner [] = none
owner (r ∷ rs) = some r

ok-ne-err :
    {A : Type 0} {r : A} {e : Fault} {w w' : LockFiles}
    → ◌≢◌ {A = Result A × LockFiles} (ok r, w) (err e, w')
ok-ne-err h = cc

holds-ne-absent : {v : Json} → holds v ≢ absent
holds-ne-absent h = cc

acquired-absent :
    (p : Process) (run_id : String) (operation : RunLockOperation) (w files : LockFiles)
    (r : RunLockRecord)
    → acquire_run_lock p run_id operation w ≡ (ok r, files)
    → (w.lock ≡ absent) × (files.lock ≡ holds (json_of r))
acquired-absent p run_id operation w files r h =
    on_lock w.lock refl (acquire_run_lock_lem p run_id operation w)
  where
    on_lock :
        (l : LockFile)
        → w.lock ≡ l
        → AcquireOutcome l w (new_record p run_id operation) (acquire_run_lock p run_id operation w)
        → (w.lock ≡ absent) × (files.lock ≡ holds (json_of r))
    on_lock absent e o = (e, ground (arith, h, o))
    on_lock unreadable e (x, o) = absurd (ok-ne-err (sym h ∙ o))
    on_lock (holds v) e (x, o) = absurd (ok-ne-err (sym h ∙ o))

-- taking one of at most one away
removed_one :
    (files : LockFiles) (before after : List RunLockRecord) (r : RunLockRecord)
    → Exclusive files (before ++ r ∷ after)
    → (before ≡ []) × (after ≡ [])
removed_one files [] [] r x = (refl, refl)
removed_one files [] (a ∷ rest) r x = elim x [ ]
removed_one files (b ∷ []) after r x = elim x [ ]
removed_one files (b ∷ c ∷ bs) after r x = elim x [ ]

-- what a move keeps, and the move of the mutex that it is
Step : LockFiles → List RunLockRecord → LockFiles → List RunLockRecord → Type 0
Step files holders files' holders' =
    Exclusive files' holders' × MutexMove (owner holders) (owner holders')

drop-Step :
    (files files' : LockFiles) (before after : List RunLockRecord) (r : RunLockRecord)
    → Exclusive files (before ++ r ∷ after)
    → Step files (before ++ r ∷ after) files' (before ++ after)
unfolding Step
drop-Step files files' before after r x =
    let (none_before, none_after) = removed_one files before after r x in
    rw (none_before, none_after) (tt, give_up r)

acquire-Step :
    (p : Process) (run_id : String) (operation : RunLockOperation) (files files' : LockFiles)
    (holders : List RunLockRecord) (r : RunLockRecord)
    → Exclusive files holders
    → acquire_run_lock p run_id operation files ≡ (ok r, files')
    → Step files holders files' (r ∷ holders)
unfolding Step
acquire-Step p run_id operation files files' [] r x h =
    ((acquired-absent p run_id operation files files' r h).1, take r)
acquire-Step p run_id operation files files' (q ∷ []) r x h =
    absurd (holds-ne-absent (sym x ∙ (acquired-absent p run_id operation files files' r h).0))
acquire-Step p run_id operation files files' (q ∷ q' ∷ qs) r x h = elim x [ ]

-- a recovery is under way for a record that its process has found stale
abbrev IsStale : Recovery → Type 0
IsStale c = process_status c.process c.existing ≡ stale

find_stale-stale :
    (p : Process) (w : LockFiles) (r : RunLockRecord)
    → find_stale p w ≡ (ok r, w)
    → process_status p r ≡ stale
unfolding find_stale ◌>>=◌
find_stale-stale p w r h = elim (Result-cases (read_lock p w.lock)) [
  | inr (e, k) ↦ let refused = rw k at h in absurd (ok-ne-err (sym refused))
  | inl (q, k) ↦ judged q (rw k at h)
]
  where
    stale_of : (l : Liveness) → is_stale l ≡ true → l ≡ stale
    stale_of live t = cc
    stale_of stale t = refl
    stale_of unknown t = cc

    same :
        {q : RunLockRecord} → ◌≡◌ {A = Result RunLockRecord × LockFiles} (ok q, w) (ok r, w) → q ≡ r
    same k = cc

    judged :
        (q : RunLockRecord)
        → (if is_stale (process_status p q)
              then pure q
              else throw (dokion_error ErrorCode.run_locked))
            w
          ≡ (ok r, w)
        → process_status p r ≡ stale
    judged q k = elim (Bool-cases (is_stale (process_status p q))) [
      | inl t ↦
          subst (λ x. process_status p x ≡ stale) (same (rw t at k))
            (stale_of (process_status p q) t)
      | inr f ↦ let refused = rw f at k in absurd (ok-ne-err (sym refused))
    ]

All-without :
    {A : Type 0} (P : A → Type 0) (before after : List A) (c : A)
    → All P (before ++ c ∷ after)
    → P c × All P (before ++ after)
All-without P [] after c h = h
All-without P (b ∷ bs) after c (p, h) = let (q, k) = All-without P bs after c h in (q, (p, k))

remove-Step :
    (c : Recovery) (files : LockFiles) (holders : List RunLockRecord)
    → Exclusive files holders
    → IsStale c
    → read_lock c.process files.lock ≡ ok c.existing
    → Truthful c.process holders
    → Step files holders (remove_lock files) holders
unfolding Step
remove-Step c files [] x gone same true_signal = (tt, stay none)
remove-Step c files (q ∷ []) x gone same (running, _) = absurd (
    running (
      subst (λ l. process_status c.process l ≡ stale)
        (read_lock-eq-json_of c.process q c.existing
          (subst (λ l. read_lock c.process l ≡ ok c.existing) x same))
        gone))
remove-Step c files (q ∷ q' ∷ qs) x gone same true_signal = elim x [ ]

stay-Step :
    (files files' : LockFiles) (holders : List RunLockRecord)
    → files'.lock ≡ files.lock
    → Exclusive files holders
    → Step files holders files' holders
unfolding Step
stay-Step files files' [] e x = (tt, stay none)
stay-Step files files' (q ∷ []) e x = (e ∙ x, stay (some q))
stay-Step files files' (q ∷ q' ∷ qs) e x = elim x [ ]

Sound : System → Type 0
Sound s = Exclusive s.files s.holders × All IsStale s.recoveries

Move-Step :
    (s t : System)
    → Sound s
    → (m : Move s t) → Undisturbed m
    → Step s.files s.holders t.files t.holders × All IsStale t.recoveries
unfolding Sound
Move-Step s t (x, old) (acquired p run_id operation r files h) u =
    (acquire-Step p run_id operation s.files files s.holders r x h, old)
Move-Step s t (x, old) (released p before after r lease files split h) u =
    (rw split (drop-Step s.files files before after r (rw split at x)), old)
Move-Step s t (x, old) (found p r h) u =
    (stay-Step s.files s.files s.holders refl x, (find_stale-stale p s.files r h, old))
Move-Step s t (x, old) (copied c by reason) u = (stay-Step s.files _ s.holders refl x, old)
Move-Step s t (x, old) (logged c by reason) u = (stay-Step s.files _ s.holders refl x, old)
Move-Step s t (x, old) (removed before after c split) (same, true_signal) =
    let (gone, others) = All-without IsStale before after c (subst (All IsStale) split old) in
    (remove-Step c s.files s.holders x gone same true_signal, others)
Move-Step s t (x, old) (died before after r split) u =
    (rw split (drop-Step s.files s.files before after r (rw split at x)), old)

reachable-Sound : {s : System} (r : Reachable s) → AllUndisturbed r → Sound s
unfolding Sound Step
reachable-Sound (start files) u = (tt, tt)
reachable-Sound (next {s} {t} r m) (before, u) =
    let (step, others) = Move-Step s t (reachable-Sound r before) m u in (step.0, others)

-- In every state that is reached by whole calls of `acquireRunLock` and `release` and the separate parts of
-- `recoverStaleRunLock` of any processes, with processes ending at any time in between, nobody holds a
-- lease, or one process alone does and the lock file has the record of its lease; if at each removal
-- by a recovery the file still held the lock that it had found, and no process with a lease looked
-- gone to it. The code does not make sure of the first.
pub reachable-Exclusive :
    {s : System} (r : Reachable s) → AllUndisturbed r → Exclusive s.files s.holders
unfolding Sound
reachable-Exclusive r u = (reachable-Sound r u).0

-- Under the same two conditions, each such move is a move of a mutex from a reachable state: it
-- takes the mutex that is free, gives it up, or leaves its owner as it is.
pub Move-MutexMove :
    {s t : System} (r : Reachable s) (m : Move s t)
    → AllUndisturbed r
    → Undisturbed m
    → MutexMove (owner s.holders) (owner t.holders)
unfolding Step
Move-MutexMove {s} {t} r m u v = (Move-Step s t (reachable-Sound r u) m v).0.1
