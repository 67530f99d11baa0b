-- ===== src/Goals/Tests.antt =====
-- goal-engineering/state.ts on one goal.
use dokion.Base.{String, List, [], ◌∷◌, none, some, true, false, ◌≡◌, refl, ◌>>=◌, map_option}
use dokion.Goals.State.{GoalState, GoalStatus, update_progress, pause_goal}
use dokion.Goals.Moves.{
  Command, progress, pause, apply, replay, Grown, is_closed, replay-Grown, replay-closed,
}

abbrev goal : GoalState
goal = record {
  objective = "ship";
  status = GoalStatus.active;
  done_condition = "tests pass";
  started_at = "t0";
  updated_at = "t0";
  turns_count = 1;
  progress_log = [];
  blocked_reason = none;
}

abbrev calls : List (String × Command)
calls = ("t1", progress "half" false none) ∷ ("t2", pause) ∷ ("t3", progress "all" true none) ∷ []

turns_after : map_option (λ s. s.turns_count) (replay calls (some goal)) ≡ some 3
unfolding replay apply update_progress pause_goal ◌>>=◌
turns_after = refl

-- a first report without a stored goal counts two turns
first_report : map_option (λ s. s.turns_count) (apply "t1" (progress "go" false none) none) ≡ some 2
unfolding apply update_progress ◌>>=◌
first_report = refl

-- a pause opens a completed goal to progress again
reopened :
    map_option
      (λ s. s.status)
      (replay
        (("t1", pause) ∷ ("t2", progress "more" false none) ∷ [])
        (some (record goal { status = GoalStatus.completed })))
    ≡ some GoalStatus.active
unfolding replay apply update_progress pause_goal ◌>>=◌
reopened = refl

replay-Grown_example :
    (t : GoalState) × (replay calls (some goal) ≡ some t) × Grown goal t ("t1" ∷ "t2" ∷ "t3" ∷ []) 2
replay-Grown_example = replay-Grown calls goal (refl, (refl, (refl, tt)))

replay-closed_example :
    (t : GoalState) × (replay
        (("t1", progress "more" false none) ∷ [])
        (some (record goal { status = GoalStatus.blocked }))
      ≡ some t)
    × (is_closed t.status ≡ true)
replay-closed_example =
    replay-closed (("t1", progress "more" false none) ∷ [])
      (record goal { status = GoalStatus.blocked }) (refl, tt) refl
