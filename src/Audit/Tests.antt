-- ===== src/Audit/Tests.antt =====
-- The theorems about the audit log at small logs.
use nafas_hr.Prelude.{arith, ℕ, ◌≡◌, ◌≢◌, refl, true, none, some, [], ◌∷◌, inr, ◌↔◌}
use nafas_hr.Samples.{monday, weak_digest, company}
use nafas_hr.Model.Tables.{AuditLog}
use nafas_hr.Audit.{log_event, genesis_hash, fields_of, verify_chain}
use nafas_hr.Audit.Chain.{IsChained, log_event-IsChained, verify_chain-iff-IsChained, Breaks}
use nafas_hr.Audit.Tamper.{rewriting_changes_head}

-- A first row, with the hash given.
abbrev first_row : ℕ → AuditLog
first_row hash = record {
  id = 1;
  actor_user_id = 3;
  event_type = "hr_case_claimed";
  evaluation_record_id = some 30;
  old_value = none;
  new_value = none;
  prev_hash = genesis_hash;
  entry_hash = hash;
}

abbrev good_row : AuditLog
good_row = first_row (weak_digest (fields_of (first_row 0)))

log_event_example :
    IsChained weak_digest
      (log_event monday 3 "score_submitted" none none none (company [])).audit_log
log_event_example = log_event-IsChained monday 3 "score_submitted" none none none (company []) tt

verify_chain_example :
    (verify_chain weak_digest none (good_row ∷ [])).is_ok ≡ true
    ↔ IsChained weak_digest (good_row ∷ [])
verify_chain_example = verify_chain-iff-IsChained weak_digest (good_row ∷ [])

-- The row with another hash than that of its content.
forged-Breaks : Breaks weak_digest [] (first_row 12345)
forged-Breaks = inr (λ e. ground arith)

-- The row with the actor given, at the head of the older rows.
abbrev row_by : ℕ → ℕ → AuditLog
row_by actor prev =
    let row = record good_row { id = 2; actor_user_id = actor; prev_hash = prev } in
    record row { entry_hash = weak_digest (fields_of row) }

-- The log, and the log in which the first event is laid to another user, with all hashes made anew.
abbrev forged_row : AuditLog
forged_row =
    let row = record good_row { actor_user_id = 8 } in
    record row { entry_hash = weak_digest (fields_of row) }

head_example :
    (row_by 5 good_row.entry_hash).entry_hash ≢ (row_by 5 forged_row.entry_hash).entry_hash
unfolding verify_chain
head_example =
    rewriting_changes_head weak_digest (row_by 5 good_row.entry_hash)
      (row_by 5 forged_row.entry_hash) (good_row ∷ []) (forged_row ∷ []) refl refl
      (
        (λ e. ground arith, (λ e. ground arith, tt)),
        ((λ e. ground arith, (λ e. ground arith, tt)), tt),
      )
      refl (λ e. ground arith)
