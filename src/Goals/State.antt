-- ===== src/Goals/State.antt =====
-- goal-engineering/state.ts: `GoalStateEngine`. A file that cannot be read counts as no file.
use dokion.Base.{
  ℕ, ◌+◌, String, Bool, true, false, List, [], ◌∷◌, ◌++◌, Option, none, some, ◌==◌, ◌⧺◌,
  if◌then◌else◌, ok, ErrorCode, dokion_error, Exec, throw, gets, ◌>>=◌,
}

pub data GoalStatus : Type 0 where
  active paused completed blocked cleared : GoalStatus

pub record GoalProgressUpdate : Type 0 where
  pub timestamp : String
  pub message : String
  pub completed : Bool
  pub blocked_reason : Option String

pub record GoalState : Type 0 where
  pub objective : String
  pub status : GoalStatus
  pub done_condition : String
  pub started_at : String
  pub updated_at : String
  pub turns_count : ℕ
  pub progress_log : List GoalProgressUpdate
  pub blocked_reason : Option String

abbrev pub entry : String → String → GoalProgressUpdate
entry now message = record {
  timestamp = now;
  message = message;
  completed = false;
  blocked_reason = none;
}

-- `loadState` and `saveState` on the stored goal
abbrev save_state : GoalState → Exec (Option GoalState) GoalState
save_state s w = (ok s, some s)

unfoldable pub init_goal :
    (now : String) → (objective done_condition : String) → Exec (Option GoalState) GoalState
init_goal now objective done_condition = save_state (record {
  objective = objective;
  status = active;
  done_condition = done_condition;
  started_at = now;
  updated_at = now;
  turns_count = 1;
  progress_log = entry now ("Goal initiated: \"" ⧺ objective ⧺ "\"") ∷ [];
  blocked_reason = none;
})

-- `if (blockedReason)`: given and not empty
abbrev pub given : Option String → Option String
given none = none
given (some r) = if r == "" then none else some r

abbrev pub fresh_status : Bool → Option String → GoalStatus
fresh_status true reason = completed
fresh_status false (some r) = blocked
fresh_status false none = active

-- the goal that progress without a stored one starts from
abbrev pub fresh_goal : String → String → Bool → Option String → GoalState
fresh_goal now message is_completed blocked_reason = record {
  objective = message;
  status = fresh_status is_completed (given blocked_reason);
  done_condition = "Verifier check";
  started_at = now;
  updated_at = now;
  turns_count = 1;
  progress_log = [];
  blocked_reason = blocked_reason;
}

-- progress that is neither a completion nor a block wakes a paused goal, and no other
abbrev pub woken : GoalStatus → GoalStatus
woken paused = active
woken s = s

-- the new status and the new reason of a block
abbrev pub progressed : Bool → Option String → GoalState → GoalStatus × Option String
progressed true reason s = (completed, none)
progressed false (some r) s = (blocked, some r)
progressed false none s = (woken s.status, s.blocked_reason)

abbrev pub with_progress : String → String → Bool → Option String → GoalState → GoalState
with_progress now message is_completed blocked_reason s =
    let (status, reason) = progressed is_completed (given blocked_reason) s in
    record s {
      status = status;
      blocked_reason = reason;
      turns_count = s.turns_count + 1;
      updated_at = now;
      progress_log =
          s.progress_log
          ++ record {
            timestamp = now;
            message = message;
            completed = is_completed;
            blocked_reason = given blocked_reason;
          }
            ∷ [];
    }

unfoldable pub update_progress :
    (now : String)
    → (message : String) → (is_completed : Bool) → (blocked_reason : Option String)
    → Exec (Option GoalState) GoalState
unfolding ◌>>=◌
update_progress now message is_completed blocked_reason = do
  stored ← gets (λ w. w)
  elim stored [
    | none ↦ save_state (
        with_progress now message is_completed blocked_reason
          (fresh_goal now message is_completed blocked_reason))
    | some s ↦ save_state (with_progress now message is_completed blocked_reason s)
  ]

-- the change of status with its line in the log
abbrev pub with_status : String → GoalStatus → String → GoalState → GoalState
with_status now status message s = record s {
  status = status;
  updated_at = now;
  progress_log = s.progress_log ++ entry now message ∷ [];
}

abbrev goal_not_found :
    Option GoalState → (GoalState → GoalState) → Exec (Option GoalState) GoalState
goal_not_found none f = throw (dokion_error ErrorCode.goal_not_found)
goal_not_found (some s) f = save_state (f s)

unfoldable pub pause_goal : (now : String) → Exec (Option GoalState) GoalState
unfolding ◌>>=◌
pause_goal now = do
  stored ← gets (λ w. w)
  goal_not_found stored (with_status now paused "Goal paused by user.")

unfoldable pub resume_goal : (now : String) → Exec (Option GoalState) GoalState
unfolding ◌>>=◌
resume_goal now = do
  stored ← gets (λ w. w)
  goal_not_found stored (with_status now active "Goal resumed.")

abbrev clear_stored : String → Option GoalState → Exec (Option GoalState) (Option GoalState)
clear_stored now none w = (ok none, w)
clear_stored now (some s) w =
    let s' = with_status now cleared "Goal cleared." s in (ok (some s'), some s')

-- without a stored goal this returns `null`
unfoldable pub clear_goal : (now : String) → Exec (Option GoalState) (Option GoalState)
unfolding ◌>>=◌
clear_goal now = do stored ← gets (λ w. w); clear_stored now stored
