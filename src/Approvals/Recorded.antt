-- ===== src/Approvals/Recorded.antt =====
-- approvals/approval-store.ts: the decision that counts after one has been recorded.
use dokion.Base.{
  ◌+◌, String, Bool, true, false, List, [], ◌∷◌, ◌++◌, some, ok, err, Fault, ErrorCode,
  dokion_error, ◌≡◌, refl, ap, ◌∙◌, ◌⊎◌, inl, inr, ◌==◌, eq_refl, Bool-cases, keep, last,
  map_option, ◌or◌, arith, ◌>>=◌,
}
use dokion.Model.State.{DokionState, ApprovalStateRecord}
use dokion.World.{Host, World, now, tick, load, update, write_validated}
use dokion.Approvals.{ApprovalInput, approvals, is_approved_decision, is_approved, record_approval}

module _ {A : Type 0} (p : A → Bool) where
  last-snoc : (xs : List A) (x : A) → last (xs ++ x ∷ []) ≡ some x
  last-snoc [] x = refl
  last-snoc (y ∷ []) x = refl
  last-snoc (y ∷ z ∷ ys) x = last-snoc (z ∷ ys) x

  keep-kept : (xs : List A) (x : A) → p x ≡ true → keep p (xs ++ x ∷ []) ≡ keep p xs ++ x ∷ []
  keep-kept [] x h = rw h refl
  keep-kept (y ∷ ys) x h = elim (Bool-cases (p y)) [
    | inl kept ↦ rw kept (ap (λ zs. y ∷ zs) (keep-kept ys x h))
    | inr dropped ↦ rw dropped (keep-kept ys x h)
  ]

  keep-dropped : (xs : List A) (x : A) → p x ≡ false → keep p (xs ++ x ∷ []) ≡ keep p xs
  keep-dropped [] x h = rw h refl
  keep-dropped (y ∷ ys) x h = elim (Bool-cases (p y)) [
    | inl kept ↦ rw kept (ap (λ zs. y ∷ zs) (keep-dropped ys x h))
    | inr dropped ↦ rw dropped (keep-dropped ys x h)
  ]

-- the state with one more decision
abbrev pub decided : DokionState → ApprovalStateRecord → DokionState
decided s r = record s { approvals = some (approvals s ++ r ∷ []); revision = s.revision + 1 }

is_approved-own :
    (s : DokionState) (r : ApprovalStateRecord)
    → is_approved (decided s r) r.subject ≡ is_approved_decision r.decision
unfolding is_approved
is_approved-own s r =
    let own = keep-kept (λ q. q.subject == r.subject) (approvals s) r (eq_refl r.subject) in
    ap (λ xs. map_option (λ q. is_approved_decision q.decision) (last xs) or false) own
    ∙ ap (λ o. map_option (λ q. is_approved_decision q.decision) o or false)
        (last-snoc (λ q. q.subject == r.subject) (keep (λ q. q.subject == r.subject) (approvals s))
          r)

is_approved-other :
    (s : DokionState) (r : ApprovalStateRecord) (subject : String)
    → (r.subject == subject) ≡ false
    → is_approved (decided s r) subject ≡ is_approved s subject
unfolding is_approved
is_approved-other s r subject h =
    ap (λ xs. map_option (λ q. is_approved_decision q.decision) (last xs) or false)
      (keep-dropped (λ q. q.subject == subject) (approvals s) r h)

abbrev record_of : ApprovalInput → World → ApprovalStateRecord
record_of i w = record { at = w.clock; subject = i.subject; decision = i.decision; by = some i.by }

record_approval-cases :
    (h : Host) (i : ApprovalInput) (w : World) (s : DokionState)
    → w.stored ≡ some s
    → ((f : Fault) × (record_approval h i w ≡ (err f, tick w)))
      ⊎ (record_approval h i w ≡ (
        ok (record_of i w),
        record w { stored = some (decided s (record_of i w)); clock = w.clock + 1 },
      ))
unfolding record_approval update load write_validated now tick ◌>>=◌
record_approval-cases h i w s e = elim (Bool-cases (h.valid_state s)) [
  | inr bad ↦ inl (dokion_error ErrorCode.invalid_state, ground arith)
  | inl good ↦ elim (Bool-cases (h.valid_state (decided s (record_of i w)))) [
    | inl fits ↦ inr (ground arith)
    | inr refused ↦ inl (dokion_error ErrorCode.invalid_state, ground arith)
  ]
]

-- Both outcomes of recording a decision on a stored state. Either the call throws, and the stored
-- state is as it was; or the subject now counts as approved exactly if the decision is APPROVED,
-- whatever was decided before, and every other subject counts as it did.
pub record_approval_lem :
    (h : Host) (i : ApprovalInput) (w : World) (s : DokionState)
    → w.stored ≡ some s
    → ((f : Fault) × (w' : World) × (record_approval h i w ≡ (err f, w')) × (w'.stored ≡ some s))
      ⊎ ((r : ApprovalStateRecord) × (w' : World) × (t : DokionState) × (record_approval h i w
            ≡ (ok r, w'))
          × (w'.stored ≡ some t)
          × (is_approved t i.subject ≡ is_approved_decision i.decision)
          × ((other : String)
              → (i.subject == other) ≡ false
              → is_approved t other ≡ is_approved s other))
unfolding tick
record_approval_lem h i w s e = elim (record_approval-cases h i w s e) [
  | inl (f, same) ↦ inl (f, tick w, same, e)
  | inr done ↦ inr (
    record_of i w,
    record w { stored = some (decided s (record_of i w)); clock = w.clock + 1 },
    decided s (record_of i w),
    done,
    refl,
    is_approved-own s (record_of i w),
    (λ other h. is_approved-other s (record_of i w) other h),
  )
]
