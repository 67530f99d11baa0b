-- ===== src/Checkpoints/Later.antt =====
-- state/checkpoint.ts: how a checkpoint file may change over time, and what one write does to it.
use dokion.Base.{
  ◌≤◌, String, true, false, ◌==◌, [], ◌∷◌, Option, none, some, ◌≡◌, ◌≢◌, refl, sym, subst, ◌∙◌,
  arith, eq_iff, eq_refl, Bool-cases, inl, inr,
}
use dokion.Checkpoints.State.{
  SideEffectKind, SideEffectCheckpoint, CheckpointFile, unreadable, holds, Files, file_at, put,
}
use dokion.Checkpoints.Complete.{is_terminal, is_started}

-- what `beginSideEffect` writes once
abbrev pub origin :
    SideEffectCheckpoint → String × String × String × SideEffectKind × String × String × String
origin c =
    (c.intent_digest, c.run_id, c.step_id, c.kind, c.subject, c.parameters_digest, c.started_at)

-- `d` is what `c` may become: it has the same origin and no smaller revision, a terminal
-- checkpoint is the same, and one that has left `STARTED` does not come back to it.
pub record Evolves (c d : SideEffectCheckpoint) : Type 0 where
  pub origin : origin d ≡ origin c
  pub revision : c.revision ≤ d.revision
  pub terminal : is_terminal c.status ≡ true → d ≡ c
  pub left : is_started c.status ≡ false → is_started d.status ≡ false

pub Evolves-refl : (c : SideEffectCheckpoint) → Evolves c c
Evolves-refl c = record {
  origin = refl;
  revision = omega arith;
  terminal = λ t. refl;
  left = λ f. f;
}

Evolves-trans : (c d e : SideEffectCheckpoint) → Evolves c d → Evolves d e → Evolves c e
Evolves-trans c d e h k = record {
  origin = k.origin ∙ h.origin;
  revision = omega (arith, h.revision, k.revision);
  terminal = λ t.
      k.terminal (subst (λ x. is_terminal x.status ≡ true) (sym (h.terminal t)) t) ∙ h.terminal t;
  left = λ f. k.left (h.left f);
}

-- A file that is there stays, and its checkpoint evolves; one that is no JSON is not touched.
abbrev pub FileLater : Option CheckpointFile → Option CheckpointFile → Type 0
FileLater none y = Unit
FileLater (some unreadable) y = y ≡ some unreadable
FileLater (some (holds c)) y = (d : SideEffectCheckpoint) × (y ≡ some (holds d)) × Evolves c d

abbrev pub Later : Files → Files → Type 0
Later w v = (k : String) → FileLater (file_at k w) (file_at k v)

FileLater-refl : (x : Option CheckpointFile) → FileLater x x
FileLater-refl none = tt
FileLater-refl (some unreadable) = refl
FileLater-refl (some (holds c)) = (c, refl, Evolves-refl c)

FileLater-trans : (x y z : Option CheckpointFile) → FileLater x y → FileLater y z → FileLater x z
FileLater-trans none y z h k = tt
FileLater-trans (some unreadable) y z h k = subst (λ u. FileLater u z) h k
FileLater-trans (some (holds c)) y z (d, at, h) k =
    let (e, at', k') = subst (λ u. FileLater u z) at k in (e, at', Evolves-trans c d e h k')

pub Later-refl : (w : Files) → Later w w
Later-refl w k = FileLater-refl (file_at k w)

pub Later-trans : (u v w : Files) → Later u v → Later v w → Later u w
Later-trans u v w h k j = FileLater-trans (file_at j u) (file_at j v) (file_at j w) (h j) (k j)

pub file_at-put : (k : String) (f : CheckpointFile) (w : Files) → file_at k (put k f w) ≡ some f
file_at-put k f [] = ground (arith, eq_refl k)
file_at-put k f ((j, g) ∷ rest) = elim (Bool-cases (j == k)) [
  | inl t ↦ rw (t, t) refl
  | inr n ↦ rw (n, n) (file_at-put k f rest)
]

file_at-put_apart :
    (k j : String) (f : CheckpointFile) (w : Files) → k ≢ j → file_at j (put k f w) ≡ file_at j w
file_at-put_apart k j f [] ne = ground (arith, eq_iff k j, ne)
file_at-put_apart k j f ((i, g) ∷ rest) ne = elim (Bool-cases (i == k)) [
  | inl t ↦ rw (t, apart t) refl
  | inr n ↦ rw (n, file_at-put_apart k j f rest ne) refl
]
  where
    apart : (i == k) ≡ true → (i == j) ≡ false
    apart t = elim (Bool-cases (i == j)) [
      | inl u ↦ absurd (ne (sym ((eq_iff i k).0 t) ∙ (eq_iff i j).0 u))
      | inr n ↦ n
    ]

-- a write of a file that is not there, or over its checkpoint
pub put-Later :
    (k : String) (d : SideEffectCheckpoint) (w : Files)
    → FileLater (file_at k w) (some (holds d))
    → Later w (put k (holds d) w)
put-Later k d w h j = elim (Bool-cases (k == j)) [
  | inl t ↦
      subst (λ i. FileLater (file_at i w) (file_at i (put k (holds d) w))) ((eq_iff k j).0 t)
        (rw (file_at-put k (holds d) w) h)
  | inr n ↦
      rw (file_at-put_apart k j (holds d) w (λ e. ground (arith, e, n, eq_refl j, eq_iff k j)))
        (FileLater-refl (file_at j w))
]
