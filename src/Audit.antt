-- ===== src/Audit.antt =====
-- backend/app/services/audit.py: the audit log as a hash chain. The log is kept newest row first,
-- so that the row with the greatest id stands at its head.
pub mod Chain
pub mod Tamper
mod Tests
use nafas_hr.Prelude.{
  ℕ, ◌+◌, ◌==◌, Bool, true, false, not, Option, none, some, List, [], ◌∷◌, String, reverse, take,
  if◌then◌else◌,
}
use nafas_hr.Model.Values.{Detail, AuditFields, Env}
use nafas_hr.Model.Tables.{AuditLog}
use nafas_hr.Model.Store.{Db}

-- `GENESIS_HASH`, 64 zeros.
abbrev pub genesis_hash : ℕ
genesis_hash = 0

-- `_last_hash`.
abbrev pub last_hash : List AuditLog → ℕ
last_hash [] = genesis_hash
last_hash (row ∷ _) = row.entry_hash

-- `log_event`: the new row is linked to the last one and hashed.
unfoldable pub log_event : Env → ℕ → String → Option ℕ → Option Detail → Option Detail → Db → Db
log_event env actor event record_id old new db =
    let prev = last_hash db.audit_log in
    let entry = env.digest (record {
      actor_user_id = actor;
      event_type = event;
      evaluation_record_id = record_id;
      old_value = old;
      new_value = new;
      prev_hash = prev;
    }) in
    record db {
      audit_log =
          (record {
            id = db.next_id;
            actor_user_id = actor;
            event_type = event;
            evaluation_record_id = record_id;
            old_value = old;
            new_value = new;
            prev_hash = prev;
            entry_hash = entry;
          })
          ∷ db.audit_log;
      next_id = db.next_id + 1;
    }

-- The arguments with which `verify_chain` calls `compute_hash` for a row.
abbrev pub fields_of : AuditLog → AuditFields
fields_of row = record {
  actor_user_id = row.actor_user_id;
  event_type = row.event_type;
  evaluation_record_id = row.evaluation_record_id;
  old_value = row.old_value;
  new_value = row.new_value;
  prev_hash = row.prev_hash;
}

-- What is wrong with the first row that does not fit.
pub data Break : Type 0 where
  broken_link edited_row : Break

-- The dict that `verify_chain` returns.
pub record ChainReport : Type 0 where
  pub is_ok : Bool
  pub checked : ℕ
  pub broken_at_id : Option ℕ
  pub reason : Option Break

-- The loop of `verify_chain`, oldest row first.
verify_from : (AuditFields → ℕ) → ℕ → ℕ → List AuditLog → ChainReport
verify_from digest expected checked [] = record {
  is_ok = true;
  checked = checked;
  broken_at_id = none;
  reason = none;
}
verify_from digest expected checked (row ∷ rows) =
    let rest = verify_from digest row.entry_hash (checked + 1) rows in
    if not (row.prev_hash == expected)
    then record {
      is_ok = false;
      checked = checked + 1;
      broken_at_id = some row.id;
      reason = some broken_link;
    }
    else if not (digest (fields_of row) == row.entry_hash)
    then record {
      is_ok = false;
      checked = checked + 1;
      broken_at_id = some row.id;
      reason = some edited_row;
    }
    else rest

-- `query.limit(limit)`.
abbrev limited : Option ℕ → List AuditLog → List AuditLog
limited none rows = rows
limited (some n) rows = take n rows

-- `verify_chain`.
unfoldable pub verify_chain : (AuditFields → ℕ) → Option ℕ → List AuditLog → ChainReport
unfolding verify_from
verify_chain digest limit log = verify_from digest genesis_hash 0 (limited limit (reverse log))
