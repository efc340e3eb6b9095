-- ===== src/Gates/Approvals.antt =====
-- server/modules/gates/fingerprints.ts: the fingerprints of gate manifests that runner owners
-- approved. The table is the list of its rows, in the order of insertion.
use Prim.Native.Char.{code}
use Prim.Native.String.{count}
use collab.Base.{
  ℕ, leb, ◌≡◌, refl, Bool, true, false, ◌&&◌, ◌||◌, Option, none, some, List, [], ◌∷◌, ◌++◌, String,
  arith, same, ◌==◌, if◌then◌else◌, Result, ok, err, never, explicit_resume, Option-cases,
  Bool-cases, inl, inr,
}
use collab.Base.Patterns.{is_identifier, is_hash, is_digit}

pub record ApprovalRow : Type 0 where
  pub project_id : String
  pub base_revision : String
  pub fingerprint : String
  pub approved_by_runner_owner_id : String
  pub approved_at : ℕ
  pub revoked_at : Option ℕ

pub data ApprovalError : Type 0 where
  approval_invalid fingerprint_stale runner_owner_required : ApprovalError

-- `ApprovedGateManifest` without the revocation, which only the table has.
pub record Approval : Type 0 where
  pub project_id : String
  pub base_revision : String
  pub fingerprint : String
  pub approved_by_runner_owner_id : String
  pub approved_at : ℕ

all_hex : String → Bool
all_hex String.[] = true
all_hex (String.◌∷◌ c s) =
    (is_digit (code c) || (leb b'a' (code c) && leb (code c) b'f')) && all_hex s

-- CommitShaSchema: 40 or 64 lower-case hexadecimal digits.
unfoldable pub is_commit : String → Bool
unfolding all_hex
is_commit s = all_hex s && (count s == 40 || count s == 64)

unfoldable pub is_approval : Approval → Bool
is_approval a =
    is_identifier a.project_id
    && (is_commit a.base_revision
        && (is_hash a.fingerprint && is_identifier a.approved_by_runner_owner_id))

-- … WHERE project_id=? AND base_revision=? AND fingerprint=?
abbrev pub is_of : String → String → String → ApprovalRow → Bool
is_of project base fingerprint r =
    same r.project_id project && (same r.base_revision base && same r.fingerprint fingerprint)

unfoldable pub find : String → String → String → List ApprovalRow → Option ApprovalRow
find project base fingerprint [] = none
find project base fingerprint (r ∷ rs) =
    if is_of project base fingerprint r then some r else find project base fingerprint rs

abbrev is_open : ApprovalRow → Bool
is_open r = elim r.revoked_at [ none ↦ true | some _ ↦ false ]

-- isGateFingerprintApproved
unfoldable pub is_gate_fingerprint_approved : String → String → String → List ApprovalRow → Bool
is_gate_fingerprint_approved project base fingerprint rs = elim (find project base fingerprint rs) [
  | none ↦ false
  | some r ↦ is_open r
]

-- INSERT … ON CONFLICT(project_id, base_revision, fingerprint) DO NOTHING
unfoldable pub insert : Approval → List ApprovalRow → List ApprovalRow
insert a rs = elim (find a.project_id a.base_revision a.fingerprint rs) [
  | some _ ↦ rs
  | none ↦
      rs
      ++ record {
        project_id = a.project_id;
        base_revision = a.base_revision;
        fingerprint = a.fingerprint;
        approved_by_runner_owner_id = a.approved_by_runner_owner_id;
        approved_at = a.approved_at;
        revoked_at = none;
      }
        ∷ []
]

abbrev confirmed : Approval → Option ApprovalRow → Result ApprovalError Approval
confirmed a none = err fingerprint_stale explicit_resume
confirmed a (some r) =
    if is_open r && same r.approved_by_runner_owner_id a.approved_by_runner_owner_id
    then ok record a { approved_at = r.approved_at }
    else err fingerprint_stale explicit_resume

-- approveGateFingerprint
unfoldable pub approve_gate_fingerprint :
    Approval → List ApprovalRow → List ApprovalRow × Result ApprovalError Approval
approve_gate_fingerprint a rs =
    if is_approval a
    then (insert a rs, confirmed a (find a.project_id a.base_revision a.fingerprint (insert a rs)))
    else (rs, err approval_invalid never)

find-append :
    (p b f : String) (rs : List ApprovalRow) (r : ApprovalRow)
    → find p b f (rs ++ r ∷ [])
      ≡ elim (find p b f rs) [ some q ↦ some q | none ↦ if is_of p b f r then some r else none ]
unfolding find
find-append p b f [] r = refl
find-append p b f (q ∷ rs) r = elim (Bool-cases (is_of p b f q)) [
  | inl at ↦ rw at
  | inr other ↦ rw other (find-append p b f rs r)
]

-- An approval leaves every row of the table as it was, whatever its project, revision and
-- fingerprint are: a revoked fingerprint stays revoked, and an approved one keeps its owner and time.
pub approve_keeps :
    (a : Approval) (rs : List ApprovalRow) (p b f : String) (r : ApprovalRow)
    → find p b f rs ≡ some r
    → find p b f (approve_gate_fingerprint a rs).0 ≡ some r
unfolding approve_gate_fingerprint insert
approve_keeps a rs p b f r h =
    elim (Option-cases (find a.project_id a.base_revision a.fingerprint rs)) [
      | inr (q, known) ↦ ground arith
      | inl new ↦ ground (
        arith,
        find-append p b f rs (record {
          project_id = a.project_id;
          base_revision = a.base_revision;
          fingerprint = a.fingerprint;
          approved_by_runner_owner_id = a.approved_by_runner_owner_id;
          approved_at = a.approved_at;
          revoked_at = none;
        }),
      )
    ]

-- A successful approval leaves the fingerprint approved, in the name of the owner who asked.
pub approve-is_gate_fingerprint_approved :
    (a b : Approval) (rs : List ApprovalRow)
    → (approve_gate_fingerprint a rs).1 ≡ ok b
    → is_gate_fingerprint_approved a.project_id a.base_revision a.fingerprint
        (approve_gate_fingerprint a rs).0
      ≡ true
unfolding approve_gate_fingerprint is_gate_fingerprint_approved
approve-is_gate_fingerprint_approved a b rs h =
    elim (Option-cases (find a.project_id a.base_revision a.fingerprint (insert a rs))) [
      | inl missing ↦ ground arith
      | inr (r, known) ↦ ground arith
    ]
