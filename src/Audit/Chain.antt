-- ===== src/Audit/Chain.antt =====
-- backend/app/services/audit.py: writing keeps the chain whole, and `verify_chain` decides it.
use mathlib.Core.List.{reverse-append, reverse-cons, append_assoc}
use native.Mathlib.Nat.{add_assoc, add-zero}
use nafas_hr.Prelude.{
  ℕ, ◌+◌, ◌≡◌, ◌≢◌, ◌↔◌, refl, true, false, Option, none, some, List, [], ◌∷◌, ◌++◌, String,
  reverse, length, arith, ◌⊎◌,
}
use nafas_hr.Model.Values.{Detail, AuditFields, Env}
use nafas_hr.Model.Tables.{AuditLog}
use nafas_hr.Model.Store.{Db}
use nafas_hr.Audit.{genesis_hash, last_hash, log_event, fields_of, verify_from, verify_chain}

-- Every row is linked to the one before it, and its hash is that of its content.
abbrev pub IsChained : (AuditFields → ℕ) → List AuditLog → Type 0
IsChained digest [] = Unit
IsChained digest (row ∷ rows) =
    (row.prev_hash ≡ last_hash rows)
    × (digest (fields_of row) ≡ row.entry_hash)
    × IsChained digest rows

-- An event logged by any user keeps the chain whole.
pub log_event-IsChained :
    (env : Env) (actor : ℕ) (event : String) (id : Option ℕ) (old new : Option Detail) (db : Db)
    → IsChained env.digest db.audit_log
    → IsChained env.digest (log_event env actor event id old new db).audit_log
unfolding log_event
log_event-IsChained env actor event id old new db h = (refl, refl, h)

module _ (digest : AuditFields → ℕ) where
  -- The same chain, read oldest row first from an expected link.
  abbrev LinksFrom : ℕ → List AuditLog → Type 0
  LinksFrom expected [] = Unit
  LinksFrom expected (row ∷ rows) =
      (row.prev_hash ≡ expected)
      × (digest (fields_of row) ≡ row.entry_hash)
      × LinksFrom row.entry_hash rows

  -- The link that the row behind `rows` must have.
  abbrev end_hash : ℕ → List AuditLog → ℕ
  end_hash expected [] = expected
  end_hash expected (row ∷ rows) = end_hash row.entry_hash rows

  verify_from-LinksFrom :
      (expected n : ℕ) (rows : List AuditLog)
      → (verify_from digest expected n rows).is_ok ≡ true
      → LinksFrom expected rows × ((verify_from digest expected n rows).checked ≡ n + length rows)
  unfolding verify_from
  verify_from-LinksFrom expected n [] h = (tt, omega arith)
  verify_from-LinksFrom expected n (row ∷ rows) h =
      ground (arith, verify_from-LinksFrom row.entry_hash (n + 1) rows)

  LinksFrom-verify_from :
      (expected n : ℕ) (rows : List AuditLog)
      → LinksFrom expected rows
      → (verify_from digest expected n rows).is_ok ≡ true
  unfolding verify_from
  LinksFrom-verify_from expected n [] h = refl
  LinksFrom-verify_from expected n (row ∷ rows) h =
      ground (arith, LinksFrom-verify_from row.entry_hash (n + 1) rows)

  end_hash-append :
      (e : ℕ) (xs ys : List AuditLog) → end_hash e (xs ++ ys) ≡ end_hash (end_hash e xs) ys
  end_hash-append e [] ys = refl
  end_hash-append e (x ∷ xs) ys = end_hash-append x.entry_hash xs ys

  LinksFrom-append :
      (e : ℕ) (xs ys : List AuditLog)
      → LinksFrom e xs
      → LinksFrom (end_hash e xs) ys
      → LinksFrom e (xs ++ ys)
  LinksFrom-append e [] ys h k = k
  LinksFrom-append e (x ∷ xs) ys h k = (h.0, h.1, LinksFrom-append x.entry_hash xs ys h.2 k)

  LinksFrom-split :
      (e : ℕ) (xs ys : List AuditLog)
      → LinksFrom e (xs ++ ys)
      → LinksFrom e xs × LinksFrom (end_hash e xs) ys
  LinksFrom-split e [] ys h = (tt, h)
  LinksFrom-split e (x ∷ xs) ys h =
      let (a, b) = LinksFrom-split x.entry_hash xs ys h.2 in ((h.0, h.1, a), b)

  end_hash-reverse : (log : List AuditLog) → end_hash genesis_hash (reverse log) ≡ last_hash log
  end_hash-reverse [] = refl
  end_hash-reverse (row ∷ rows) = rw reverse-cons (rw end_hash-append refl)

  IsChained-LinksFrom :
      (log : List AuditLog) → IsChained digest log → LinksFrom genesis_hash (reverse log)
  IsChained-LinksFrom [] h = tt
  IsChained-LinksFrom (row ∷ rows) h = rw reverse-cons (
      LinksFrom-append genesis_hash (reverse rows) (row ∷ []) (IsChained-LinksFrom rows h.2)
        (rw (end_hash-reverse rows) (h.0, h.1, tt)))

  LinksFrom-IsChained :
      (log : List AuditLog) → LinksFrom genesis_hash (reverse log) → IsChained digest log
  LinksFrom-IsChained [] h = tt
  LinksFrom-IsChained (row ∷ rows) h =
      let (before, link) =
        LinksFrom-split genesis_hash (reverse rows) (row ∷ []) (rw reverse-cons at h) in
      (rw (end_hash-reverse rows) at link.0, link.1, LinksFrom-IsChained rows before)

  -- Rows that link are passed over, and the first that does not is what the loop reports.
  verify_from-append :
      (expected n : ℕ) (good rest : List AuditLog)
      → LinksFrom expected good
      → verify_from digest expected n (good ++ rest)
        ≡ verify_from digest (end_hash expected good) (n + length good) rest
  unfolding verify_from
  verify_from-append expected n [] rest h = rw add-zero
  verify_from-append expected n (row ∷ rows) rest h =
      ground
        (arith, verify_from-append row.entry_hash (n + 1) rows rest, add_assoc n 1 (length rows))

  -- `verify_chain` answers ok exactly when every row links to the row before it and bears the hash of
  -- its content.
  pub verify_chain-iff-IsChained :
      (log : List AuditLog) → (verify_chain digest none log).is_ok ≡ true ↔ IsChained digest log
  unfolding verify_chain
  verify_chain-iff-IsChained log = (
    λ h. LinksFrom-IsChained log (verify_from-LinksFrom genesis_hash 0 (reverse log) h).0,
    λ h. LinksFrom-verify_from genesis_hash 0 (reverse log) (IsChained-LinksFrom log h),
  )

  -- Where `verify_chain` answers ok, it has checked all rows.
  pub verify_chain_checks_all :
      (log : List AuditLog)
      → (verify_chain digest none log).is_ok ≡ true
      → (verify_chain digest none log).checked ≡ length (reverse log)
  unfolding verify_chain
  verify_chain_checks_all log h =
      omega (arith, (verify_from-LinksFrom genesis_hash 0 (reverse log) h).1)

  -- The row is not linked to the rows before it, or its hash is not that of its content.
  abbrev pub Breaks : List AuditLog → AuditLog → Type 0
  Breaks rows row = ((row.prev_hash ≢ last_hash rows) ⊎ (digest (fields_of row) ≢ row.entry_hash))

-- `verify_chain` names the first row that does not fit, and has checked the rows up to it.
pub verify_chain_first_break :
    (digest : AuditFields → ℕ) (good : List AuditLog) (bad : AuditLog) (later : List AuditLog)
    → IsChained digest good
    → Breaks digest good bad
    → let report = verify_chain digest none (later ++ bad ∷ good) in
      (report.is_ok ≡ false)
      × (report.broken_at_id ≡ some bad.id)
      × (report.checked ≡ length (reverse good) + 1)
unfolding verify_chain
verify_chain_first_break digest good bad later h b =
    rw (reverse-append, reverse-cons, append_assoc)
      (rw
        (verify_from-append digest genesis_hash 0 (reverse good) (bad ∷ [] ++ reverse later)
          (IsChained-LinksFrom digest good h))
        (ground (arith, end_hash-reverse digest good)))
