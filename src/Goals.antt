-- ===== src/Goals.antt =====
-- goal-engineering/state.ts and goal-engineering/budget.ts: the goal of a project, which is kept in
-- `.dokion/goal-state.json`, and its budget.
mod State
mod Moves
mod Tests
