-- ===== src/Autopilot/Drift.antt =====
-- autopilot/stale-run.ts beside the comparison of git/repository-identity.ts that `resume` makes.
use dokion.Base.{
  String, true, false, List, [], ◌∷◌, ◌++◌, Option, none, some, ◌≡◌, ◌≢◌, refl, sym, subst, ◌⊎◌,
  inl, inr, ◌==◌, eq_iff, eq_refl, Bool-cases, arith,
}
use dokion.Model.State.{DokionState, RepositoryIdentity, RepositoryIdentityField}
use dokion.Engine.{compare_repository_identities, difference, opt_text_eq}
use dokion.Autopilot.Limits.{SystemContext, classify_stale_run, drifted}

drifted-differs : (a b : Option String) → drifted a b ≡ true → opt_text_eq b a ≡ false
drifted-differs none b h = cc
drifted-differs (some a) none h = cc
drifted-differs (some a) (some b) h = elim (Bool-cases (b == a)) [
  | inr other ↦ other
  | inl same ↦
      let equal : (a == b) ≡ true =
        subst (λ x. (a == x) ≡ true) (sym ((eq_iff b a).0 same)) (eq_refl a) in
      absurd (ground arith)
]

append_left : {A : Type 0} (xs ys : List A) → xs ≢ [] → xs ++ ys ≢ []
append_left [] ys h e = h refl
append_left (x ∷ xs) ys h e = cc

append_right : {A : Type 0} (xs ys : List A) → ys ≢ [] → xs ++ ys ≢ []
append_right [] ys h e = h e
append_right (x ∷ xs) ys h e = cc

difference-ne-nil :
    (f : RepositoryIdentityField) (a b : Option String)
    → opt_text_eq a b ≡ false
    → difference f a b ≢ []
difference-ne-nil f a b h = rw h (λ e. cc)

either_drift :
    (s : DokionState) (c : SystemContext)
    → (classify_stale_run (some s) c).is_stale ≡ true
    → (drifted c.current_commit s.repository_identity.commit ≡ true)
      ⊎ (drifted c.playbook_digest (some s.playbook.digest) ≡ true)
unfolding classify_stale_run
either_drift s c h = elim (Bool-cases (drifted c.current_commit s.repository_identity.commit)) [
  | inl commit ↦ inl commit
  | inr same ↦ elim (Bool-cases (drifted c.playbook_digest (some s.playbook.digest))) [
    | inl digest ↦ inr digest
    | inr both ↦ absurd (ground arith)
  ]
]

-- a difference in the commit or in the playbook's digest is a difference
compare-ne-nil :
    (e a : RepositoryIdentity)
    → (opt_text_eq e.commit a.commit ≡ false)
      ⊎ (opt_text_eq (some e.playbook_digest) (some a.playbook_digest) ≡ false)
    → compare_repository_identities e a ≢ []
unfolding compare_repository_identities
compare-ne-nil e a h =
    let root =
      difference RepositoryIdentityField.canonical_root (some e.canonical_root)
        (some a.canonical_root) in
    let digest =
      difference RepositoryIdentityField.root_digest (some e.root_digest) (some a.root_digest) in
    let worktree =
      difference RepositoryIdentityField.worktree_id (some e.worktree_id) (some a.worktree_id) in
    let remote = difference RepositoryIdentityField.remote e.remote a.remote in
    let commit = difference RepositoryIdentityField.commit e.commit a.commit in
    let branch = difference RepositoryIdentityField.branch e.branch a.branch in
    let playbook =
      difference RepositoryIdentityField.playbook_digest (some e.playbook_digest)
        (some a.playbook_digest) in
    let rest = branch ++ playbook in
    let inner : commit ++ rest ≢ [] = elim h [
      | inl c ↦
          append_left commit rest
            (difference-ne-nil RepositoryIdentityField.commit e.commit a.commit c)
      | inr p ↦ append_right commit rest (
          append_right branch playbook (
            difference-ne-nil RepositoryIdentityField.playbook_digest (some e.playbook_digest)
              (some a.playbook_digest) p))
    ] in
    append_right root (digest ++ (worktree ++ (remote ++ (commit ++ rest)))) (
      append_right digest (worktree ++ (remote ++ (commit ++ rest))) (
        append_right worktree (remote ++ (commit ++ rest))
          (append_right remote (commit ++ rest) inner)))

-- A run that the autopilot classifies as stale is one that `resume` finds changed: for the identity
-- that is captured with the same commit and playbook digest, the comparison with the run's identity
-- reports a difference. The run's identity is taken to have the playbook digest of the run, as
-- `initialize` writes it.
pub classify_stale_run-differs :
    (s : DokionState) (c : SystemContext) (actual : RepositoryIdentity)
    → c.current_commit ≡ actual.commit
    → c.playbook_digest ≡ some actual.playbook_digest
    → s.repository_identity.playbook_digest ≡ s.playbook.digest
    → (classify_stale_run (some s) c).is_stale ≡ true
    → compare_repository_identities s.repository_identity actual ≢ []
classify_stale_run-differs s c actual commit digest own h =
    compare-ne-nil s.repository_identity actual (elim (either_drift s c h) [
      | inl drift ↦ inl (
          drifted-differs actual.commit s.repository_identity.commit
            (subst (λ o. drifted o s.repository_identity.commit ≡ true) commit drift))
      | inr drift ↦
          let drift' = subst (λ o. drifted o (some s.playbook.digest) ≡ true) digest drift in
          inr (
            drifted-differs (some actual.playbook_digest)
              (some s.repository_identity.playbook_digest)
              (subst (λ d. drifted (some actual.playbook_digest) (some d) ≡ true) (sym own) drift'))
    ])
