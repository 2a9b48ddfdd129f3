-- ===== src/Audit/Tamper.antt =====
-- backend/app/services/audit.py: what the chain proves. Where the hash function has no collision
-- among the rows compared, the last hash fixes the content of the whole log, so an old row cannot
-- be rewritten under an unchanged head.
use mathlib.Core.Path.{ap₂}
use nafas_hr.Prelude.{ℕ, ◌≡◌, ◌≢◌, none, true, sym, ap, ◌∙◌, List, [], ◌∷◌, map, length, arith, All}
use nafas_hr.Model.Values.{AuditFields}
use nafas_hr.Model.Tables.{AuditLog}
use nafas_hr.Audit.{fields_of, verify_chain}
use nafas_hr.Audit.Chain.{IsChained, verify_chain-iff-IsChained}

-- Among the rows of two logs, equal hashes come from equal contents: the JSON text of `json.dumps` tells
-- different dicts apart, and SHA-256 has no collision among these texts.
abbrev pub NoCollision : (AuditFields → ℕ) → List AuditLog → List AuditLog → Type 0
NoCollision digest xs ys =
    All (λ x. All (λ y. digest (fields_of x) ≡ digest (fields_of y) → fields_of x ≡ fields_of y) ys)
      xs

-- The part of the hypothesis that concerns the older rows.
NoCollision-tail :
    (digest : AuditFields → ℕ) (y : AuditLog) (xs ys : List AuditLog)
    → NoCollision digest xs (y ∷ ys)
    → NoCollision digest xs ys
NoCollision-tail digest y [] ys h = tt
NoCollision-tail digest y (x ∷ xs) ys h = (h.0.1, NoCollision-tail digest y xs ys h.1)

-- The newest rows are alike.
head_fields :
    (digest : AuditFields → ℕ) (x y : AuditLog) (xs ys : List AuditLog)
    → IsChained digest (x ∷ xs)
    → IsChained digest (y ∷ ys)
    → NoCollision digest (x ∷ xs) (y ∷ ys)
    → x.entry_hash ≡ y.entry_hash
    → fields_of x ≡ fields_of y
head_fields digest x y xs ys hx hy nc e = nc.0.0 (hx.1 ∙ e ∙ sym hy.1)

-- Two whole chains of one length whose newest rows bear one hash have the same content, row by row,
-- where no two of their rows collide.
chain_determined_by_head :
    (digest : AuditFields → ℕ) (x y : AuditLog) (xs ys : List AuditLog)
    → IsChained digest (x ∷ xs)
    → IsChained digest (y ∷ ys)
    → NoCollision digest (x ∷ xs) (y ∷ ys)
    → length xs ≡ length ys
    → x.entry_hash ≡ y.entry_hash
    → map fields_of (x ∷ xs) ≡ map fields_of (y ∷ ys)
chain_determined_by_head digest x y [] [] hx hy nc len e =
    ap (λ f. f ∷ []) (head_fields digest x y [] [] hx hy nc e)
chain_determined_by_head digest x y [] (y' ∷ ys) hx hy nc len e = absurd (omega arith)
chain_determined_by_head digest x y (x' ∷ xs) [] hx hy nc len e = absurd (omega arith)
chain_determined_by_head digest x y (x' ∷ xs) (y' ∷ ys) hx hy nc len e =
    let same = head_fields digest x y (x' ∷ xs) (y' ∷ ys) hx hy nc e in
    let older =
      chain_determined_by_head digest x' y' xs ys hx.2 hy.2
        (NoCollision-tail digest y (x' ∷ xs) (y' ∷ ys) nc.1) (omega arith)
        (sym hx.0 ∙ ap (λ (f : AuditFields). f.prev_hash) same ∙ hy.0) in
    ap₂ (λ f fs. f ∷ fs) same older

-- Two logs of one length that `verify_chain` finds in order, but whose rows differ in content at some
-- place, have different newest hashes, provided that no two rows of theirs that differ in content have
-- one digest: history cannot be rewritten under the newest hash that somebody has noted down.
pub rewriting_changes_head :
    (digest : AuditFields → ℕ) (x y : AuditLog) (xs ys : List AuditLog)
    → (verify_chain digest none (x ∷ xs)).is_ok ≡ true
    → (verify_chain digest none (y ∷ ys)).is_ok ≡ true
    → NoCollision digest (x ∷ xs) (y ∷ ys)
    → length xs ≡ length ys
    → map fields_of (x ∷ xs) ≢ map fields_of (y ∷ ys)
    → x.entry_hash ≢ y.entry_hash
rewriting_changes_head digest x y xs ys hx hy nc len differ e = differ (
    chain_determined_by_head digest x y xs ys ((verify_chain-iff-IsChained digest (x ∷ xs)).0 hx)
      ((verify_chain-iff-IsChained digest (y ∷ ys)).0 hy) nc len e)
