-- ===== src/Goals/Moves.antt =====
-- goal-engineering/state.ts: sequences of calls on one project.
use dokion.Base.{
  ℕ, ◌+◌, String, Bool, true, false, List, [], ◌∷◌, ◌++◌, map, Option, none, some, ◌≡◌, refl, sym,
  ap, ◌∙◌, arith, ◌>>=◌, All,
}
use mathlib.Core.List.{append-nil, append_assoc}
use dokion.Goals.State.{
  GoalStatus, active, paused, completed, blocked, cleared, GoalProgressUpdate, GoalState, entry,
  given, with_progress, with_status, progressed, woken, init_goal, update_progress, pause_goal,
  resume_goal, clear_goal,
}

-- the calls with their arguments
pub data Command : Type 0 where
  progress : (message : String) (is_completed : Bool) (blocked_reason : Option String) → Command
  pause resume clear : Command
  init : (objective done_condition : String) → Command

-- the stored goal after a call at the time `now`, whether it returns or throws
unfoldable pub apply : String → Command → Option GoalState → Option GoalState
apply now (progress message is_completed blocked_reason) w =
    (update_progress now message is_completed blocked_reason w).1
apply now pause w = (pause_goal now w).1
apply now resume w = (resume_goal now w).1
apply now clear w = (clear_goal now w).1
apply now (init objective done_condition) w = (init_goal now objective done_condition w).1

unfoldable pub replay : List (String × Command) → Option GoalState → Option GoalState
replay [] w = w
replay ((now, c) ∷ cs) w = replay cs (apply now c w)

abbrev pub turns_of : Command → ℕ
turns_of (progress message is_completed blocked_reason) = 1
turns_of _ = 0

-- `initGoal` puts a new goal in the place of the stored one
abbrev pub is_init : Command → Bool
is_init (init objective done_condition) = true
is_init _ = false

abbrev pub turns_in : List (String × Command) → ℕ
turns_in [] = 0
turns_in ((now, c) ∷ cs) = turns_of c + turns_in cs

-- `t` has grown from `s` by calls at the times `times`, of which `turns` reported progress
pub record Grown (s t : GoalState) (times : List String) (turns : ℕ) : Type 0 where
  pub objective : t.objective ≡ s.objective
  pub done_condition : t.done_condition ≡ s.done_condition
  pub started_at : t.started_at ≡ s.started_at
  pub turns_count : t.turns_count ≡ s.turns_count + turns
  pub added : List GoalProgressUpdate
  pub progress_log : t.progress_log ≡ s.progress_log ++ added
  pub stamped : map (λ e. e.timestamp) added ≡ times

status_Grown :
    (now : String) (status : GoalStatus) (message : String) (s : GoalState)
    → Grown s (with_status now status message s) (now ∷ []) 0
status_Grown now status message s = record {
  objective = refl;
  done_condition = refl;
  started_at = refl;
  turns_count = omega arith;
  added = entry now message ∷ [];
  progress_log = refl;
  stamped = refl;
}

apply-Grown :
    (now : String) (c : Command) (s : GoalState)
    → is_init c ≡ false
    → (t : GoalState) × (apply now c (some s) ≡ some t) × Grown s t (now ∷ []) (turns_of c)
unfolding apply init_goal update_progress pause_goal resume_goal clear_goal ◌>>=◌
apply-Grown now (init objective done_condition) s n = cc
apply-Grown now (progress message is_completed blocked_reason) s n = (
  with_progress now message is_completed blocked_reason s,
  refl,
  record {
    objective = refl;
    done_condition = refl;
    started_at = refl;
    turns_count = refl;
    added = _;
    progress_log = refl;
    stamped = refl;
  },
)
apply-Grown now pause s n = (
  with_status now paused "Goal paused by user." s,
  refl,
  status_Grown now paused "Goal paused by user." s,
)
apply-Grown now resume s n =
    (with_status now active "Goal resumed." s, refl, status_Grown now active "Goal resumed." s)
apply-Grown now clear s n =
    (with_status now cleared "Goal cleared." s, refl, status_Grown now cleared "Goal cleared." s)

map_append : {A B : Type 0} (f : A → B) (xs ys : List A) → map f (xs ++ ys) ≡ map f xs ++ map f ys
map_append f [] ys = refl
map_append f (x ∷ xs) ys = ap (λ zs. f x ∷ zs) (map_append f xs ys)

Grown-trans :
    (s m t : GoalState) (now : String) (times : List String) (a b : ℕ)
    → Grown s m (now ∷ []) a
    → Grown m t times b
    → Grown s t (now ∷ times) (a + b)
Grown-trans s m t now times a b first rest = record {
  objective = rest.objective ∙ first.objective;
  done_condition = rest.done_condition ∙ first.done_condition;
  started_at = rest.started_at ∙ first.started_at;
  turns_count = omega (arith, first.turns_count, rest.turns_count);
  added = first.added ++ rest.added;
  progress_log =
      rest.progress_log
      ∙ ap (λ l. l ++ rest.added) first.progress_log
      ∙ append_assoc s.progress_log first.added rest.added;
  stamped =
      map_append (λ e. e.timestamp) first.added rest.added
      ∙ ap (λ l. l ++ map (λ e. e.timestamp) rest.added) first.stamped
      ∙ ap (λ l. now ∷ l) rest.stamped;
}

-- Whatever calls but `initGoal` follow on a stored goal, its objective, its condition and its start stay, its turns
-- grow by the calls of `updateProgress`, and its log keeps all its lines and gets one for each call, with
-- the times of the calls in their order.
pub replay-Grown :
    (cs : List (String × Command)) (s : GoalState)
    → All (λ c. is_init c.1 ≡ false) cs
    → (t : GoalState) × (replay cs (some s) ≡ some t) × Grown s t (map (λ c. c.0) cs) (turns_in cs)
unfolding replay
replay-Grown [] s no_init = (
  s,
  refl,
  record {
    objective = refl;
    done_condition = refl;
    started_at = refl;
    turns_count = omega arith;
    added = [];
    progress_log = sym (append-nil s.progress_log);
    stamped = refl;
  },
)
replay-Grown ((now, c) ∷ cs) s (n, no_init) =
    let (m, at, first) = apply-Grown now c s n in
    let (t, end_state, rest) = replay-Grown cs m no_init in
    (
      t,
      ap (replay cs) at ∙ end_state,
      Grown-trans s m t now (map (λ x. x.0) cs) (turns_of c) (turns_in cs) first rest,
    )

abbrev pub is_closed : GoalStatus → Bool
is_closed active = false
is_closed paused = false
is_closed _ = true

-- a call that neither pauses, resumes nor starts a new goal
abbrev pub is_quiet : Command → Bool
is_quiet pause = false
is_quiet resume = false
is_quiet (init objective done_condition) = false
is_quiet _ = true

apply-closed :
    (now : String) (c : Command) (s : GoalState)
    → is_quiet c ≡ true
    → is_closed s.status ≡ true
    → (t : GoalState) × (apply now c (some s) ≡ some t) × (is_closed t.status ≡ true)
unfolding apply init_goal update_progress pause_goal resume_goal clear_goal ◌>>=◌
apply-closed now pause s q h = cc
apply-closed now resume s q h = cc
apply-closed now (init objective done_condition) s q h = cc
apply-closed now clear s q h = (with_status now cleared "Goal cleared." s, refl, refl)
apply-closed now (progress message is_completed blocked_reason) s q h = (
  with_progress now message is_completed blocked_reason s,
  refl,
  kept is_completed (given blocked_reason),
)
  where
    asleep : (x : GoalStatus) → is_closed x ≡ true → is_closed (woken x) ≡ true
    asleep paused k = cc
    asleep active k = cc
    asleep completed k = refl
    asleep blocked k = refl
    asleep cleared k = refl

    kept : (b : Bool) (o : Option String) → is_closed (progressed b o s).0 ≡ true
    kept true o = refl
    kept false (some r) = refl
    kept false none = asleep s.status h

-- A goal that is completed, blocked or cleared stays so, whatever progress is reported, until it is paused
-- or resumed or a new goal is started.
pub replay-closed :
    (cs : List (String × Command)) (s : GoalState)
    → All (λ c. is_quiet c.1 ≡ true) cs
    → is_closed s.status ≡ true
    → (t : GoalState) × (replay cs (some s) ≡ some t) × (is_closed t.status ≡ true)
unfolding replay
replay-closed [] s q h = (s, refl, h)
replay-closed ((now, c) ∷ cs) s (k, q) h =
    let (m, at, closed) = apply-closed now c s k h in
    let (t, end_state, still) = replay-closed cs m q closed in
    (t, ap (replay cs) at ∙ end_state, still)
