-- ===== src/Model.antt =====
-- The data that the components share: JSON values, playbooks, and the persisted state of a run.
pub mod Json
pub mod Playbook
pub mod State
