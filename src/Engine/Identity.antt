-- ===== src/Engine/Identity.antt =====
-- The commit and branch of `inspectGit` in engine/runtime-engine.ts, and `compareRepositoryIdentities`
-- of git/repository-identity.ts.
use Prim.Native.Char.{code}
use Prim.Native.String
use dokion.Base.{
  ℕ, String, Bool, true, false, ◌&&◌, ◌||◌, List, [], ◌∷◌, ◌++◌, Option, none, some, ◌==◌, leb,
  if◌then◌else◌,
}
use dokion.Model.State.{RepositoryIdentity, RepositoryIdentityDifference, RepositoryIdentityField}

-- /^[a-fA-F0-9]{7,40}$/
abbrev is_hex_code : ℕ → Bool
is_hex_code c =
    (leb b'a' c && leb c b'f') || (leb b'A' c && leb c b'F') || (leb b'0' c && leb c b'9')

abbrev all_hex : String → Bool
all_hex String.[] = true
all_hex (String.◌∷◌ c s) = is_hex_code (code c) && all_hex s

unfoldable pub is_commit : String → Bool
is_commit s = leb 7 (String.len s) && leb (String.len s) 40 && all_hex s

abbrev pub commit_or_zero : Option String → String
commit_or_zero none = "0000000"
commit_or_zero (some s) = if is_commit s then s else "0000000"

-- a branch name that is empty counts as none
abbrev pub non_empty : Option String → Option String
non_empty none = none
non_empty (some s) = if s == "" then none else some s

abbrev pub opt_text_eq : Option String → Option String → Bool
opt_text_eq none none = true
opt_text_eq (some a) (some b) = a == b
opt_text_eq _ _ = false

abbrev pub difference :
    RepositoryIdentityField → Option String → Option String → List RepositoryIdentityDifference
difference f expected actual =
    if opt_text_eq expected actual
    then []
    else record { field = f; expected = expected; actual = actual } ∷ []

-- git/repository-identity.ts: the fields of `COMPARISON_FIELDS`, in that order
unfoldable pub compare_repository_identities :
    RepositoryIdentity → RepositoryIdentity → List RepositoryIdentityDifference
compare_repository_identities e a =
    difference RepositoryIdentityField.canonical_root (some e.canonical_root)
      (some a.canonical_root)
    ++ (difference RepositoryIdentityField.root_digest (some e.root_digest) (some a.root_digest)
        ++ (difference RepositoryIdentityField.worktree_id (some e.worktree_id) (some a.worktree_id)
            ++ (difference RepositoryIdentityField.remote e.remote a.remote
                ++ (difference RepositoryIdentityField.commit e.commit a.commit
                    ++ (difference RepositoryIdentityField.branch e.branch a.branch
                        ++ difference RepositoryIdentityField.playbook_digest
                            (some e.playbook_digest) (some a.playbook_digest))))))
