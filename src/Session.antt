-- ===== src/Session.antt =====
-- A request over a database session (app/db/session.py, app/api/v1/deps.py): the rows as last
-- committed and the rows as the handler sees them, with the exceptions that end a request.
-- `raise` leaves the working rows as they are; what was not committed is lost when the request
-- ends, since `get_db` closes its session without a commit.
use test_platform_backend.Prelude.{
  ℕ, Bool, true, false, Option, none, some, ◌≡◌, ◌⊎◌, inl, inr, refl,
}

-- The HTTP statuses that the agent services raise.
pub data HttpStatus : Type 0 where
  bad_request forbidden not_found conflict unprocessable server_error : HttpStatus

-- The codes that the agent services put into `detail` or into an `error_code` column. `reported`
-- is a code that a backend sent.
pub data ErrorCode : Type 0 where
  approval_stale_or_superseded approval_epoch_conflict approval_input_changed : ErrorCode
  tool_call_not_approvable cannot_supersede_executing_call : ErrorCode
  approval_required_before_execution approval_rejected approval_expired : ErrorCode
  approval_superseded permission_revoked_before_execution backend_capability_too_weak : ErrorCode
  memory_source_ref_required document_imported_source_hash_required : ErrorCode
  memory_source_content_hash_required memory_source_profile_missing : ErrorCode
  execution_learned_requires_two_execution_evidence invalid_memory_status : ErrorCode
  memory_requires_explicit_validation repair_inferred_requires_execution_validation : ErrorCode
  invalid_memory_contradiction_severity memory_event_not_stale_event : ErrorCode
  memory_retrieval_profile_missing : ErrorCode
  tool_execution_failed eventstore_write_failed_after_effect : ErrorCode
  event_outbox_write_failed context_decision_build_required : ErrorCode
  required_evidence_incomplete_for_high_risk : ErrorCode
  high_risk_action_cannot_depend_only_on_memory agent_memory_used_for_high_risk : ErrorCode
  tool_call_uncertain_reconcile_required tool_call_missing run_missing user_missing : ErrorCode
  tool_call_obsolete run_migration_blocked replacement_run_mismatch : ErrorCode
  backend_contract_unsupported backend_reconcile_not_supported idempotency_conflict : ErrorCode
  backend_reconcile_failed reconcile_not_found reconcile_not_found_after_commit : ErrorCode
  unsupported_schema_version backend_reconcile_adapter_missing memory_bypassed : ErrorCode
  reported : ℕ → ErrorCode

-- `fastapi.HTTPException`: the status, and the code of a `detail` that has one.
pub record HttpException : Type 0 where
  pub status_code : HttpStatus
  pub code : Option ErrorCode

abbrev pub http : HttpStatus → Option ErrorCode → HttpException
http s c = record { status_code = s; code = c }

pub data Result (A : Type 0) : Type 0 where
  ok : A → Result A
  err : HttpException → Result A

abbrev pub is_ok : {A : Type 0} → Result A → Bool
is_ok (ok _) = true
is_ok (err _) = false

pub record Session (S : Type 0) : Type 0 where
  pub saved : S
  pub work : S

abbrev pub Exec : Type 0 → Type 0 → Type 0
Exec S A = Session S → Result A × Session S

module _ {S : Type 0} where
  -- A fresh session over the committed rows.
  abbrev pub begin : S → Session S
  begin s = record { saved = s; work = s }

  -- `db.commit()`, `db.rollback()`
  abbrev pub commit : Exec S Unit
  commit s = (ok tt, record { saved = s.work; work = s.work })

  abbrev pub rollback : Exec S Unit
  rollback s = (ok tt, record { saved = s.saved; work = s.saved })

  abbrev pub modify : (S → S) → Exec S Unit
  modify f s = (ok tt, record s { work = f s.work })

module _ {S A : Type 0} where
  abbrev pub pure : A → Exec S A
  pure a s = (ok a, s)

  abbrev pub raise : HttpException → Exec S A
  raise e s = (err e, s)

  abbrev pub gets : (S → A) → Exec S A
  gets f s = (ok (f s.work), s)

  abbrev handled : (HttpException → Exec S A) → Result A × Session S → Result A × Session S
  handled h (ok a, s) = (ok a, s)
  handled h (err e, s) = h e s

  -- `try: m except HTTPException as e: h(e)`
  abbrev pub catch : Exec S A → (HttpException → Exec S A) → Exec S A
  catch m h s = handled h (m s)

  -- What a request answers, and the rows that it leaves in the database.
  abbrev pub request : Exec S A → S → Result A × S
  request m db = let (r, s) = m (begin db) in (r, s.saved)

module _ {S A : Type 0} where
  -- `if test: m else: n`, and a test for `None`
  abbrev pub branch : Bool → Exec S A → Exec S A → Exec S A
  branch true m n s = m s
  branch false m n s = n s

  abbrev pub case_some : {B : Type 0} → Option B → Exec S A → (B → Exec S A) → Exec S A
  case_some none m f s = m s
  case_some (some b) m f s = f b s

module _ {S A B : Type 0} where
  abbrev resume : (A → Exec S B) → Result A × Session S → Result B × Session S
  resume f (ok a, s) = f a s
  resume f (err e, s) = (err e, s)

  infixl 5 ◌>>=◌ ◌>>◌
  abbrev pub ◌>>=◌ : Exec S A → (A → Exec S B) → Exec S B
  ◌>>=◌ m f s = resume f (m s)

  abbrev pub ◌>>◌ : Exec S A → Exec S B → Exec S B
  ◌>>◌ m k s = resume (λ _. k) (m s)

module _ {S : Type 0} where
  -- `if not test: raise e`
  abbrev pub require : Bool → HttpException → Exec S Unit
  require true e s = (ok tt, s)
  require false e s = (err e, s)

  -- A pure check that may raise.
  abbrev pub lift : {A : Type 0} → Result A → Exec S A
  lift r s = (r, s)

  -- `if row is None: raise e`
  abbrev pub some_or : {A : Type 0} → Option A → HttpException → Exec S A
  some_or none e s = (err e, s)
  some_or (some a) e s = (ok a, s)

-- A check passes or raises.
pub Result-cases : (r : Result Unit) → (r ≡ ok tt) ⊎ ((e : HttpException) × (r ≡ err e))
Result-cases (ok tt) = inl refl
Result-cases (err e) = inr (e, refl)

pub Result-split :
    {A : Type 0} (r : Result A) → ((a : A) × (r ≡ ok a)) ⊎ ((e : HttpException) × (r ≡ err e))
Result-split (ok a) = inl (a, refl)
Result-split (err e) = inr (e, refl)
