-- ===== src/Web.antt =====
-- How an endpoint answers: an action over a state, which raises or returns with the state that it
-- leaves. A raised HTTPException rolls the transaction back (`get_db` of backend/app/db/session.py
-- closes the session without a commit), so an error carries no state.
use nafas_hr.Prelude.{◌≡◌, refl, Bool, true, false, ◌&&◌, Option, none, some}
use nafas_hr.Model.Values.{Result, ok, err, Error, is_ok}

abbrev pub Exec : Type 0 → Type 0 → Type 0
Exec S A = S → Result (A × S)

module _ {S A : Type 0} where
  abbrev pub pure : A → Exec S A
  pure a s = ok (a, s)

  abbrev pub raise : Error → Exec S A
  raise e s = err e

  abbrev pub gets : (S → A) → Exec S A
  gets f s = ok (f s, s)

  -- The value, or the error where there is none.
  abbrev pub or_raise : Option A → Error → Exec S A
  or_raise none e s = err e
  or_raise (some a) e s = ok (a, s)

module _ {S : Type 0} where
  abbrev pub modify : (S → S) → Exec S (Unit {0})
  modify f s = ok (tt, f s)

  abbrev pub raise_if : Bool → Error → Exec S (Unit {0})
  raise_if true e s = err e
  raise_if false e s = ok (tt, s)

infixl 5 ◌>>=◌ ◌>>◌
abbrev pub ◌>>=◌ : {S A B : Type 0} → Exec S A → (A → Exec S B) → Exec S B
◌>>=◌ m f s = elim (m s) [ ok (a, t) ↦ f a t | err e ↦ err e ]

abbrev pub ◌>>◌ : {S A B : Type 0} → Exec S A → Exec S B → Exec S B
m >> k = m >>= λ _. k

-- Inversion of a successful sequence.
pub >>=-eq-ok :
    {S A B : Type 0} (m : Exec S A) (f : A → Exec S B) (s : S) {b : B × S}
    → (m >>= f) s ≡ ok b
    → (p : A × S) × (m s ≡ ok p) × (f p.0 p.1 ≡ ok b)
>>=-eq-ok {S} {A} {B} m f s {b} h = go (m s) refl h
  where
    go :
        (r : Result (A × S))
        → m s ≡ r
        → (elim r [ ok (a, t) ↦ f a t | err e ↦ err e ]) ≡ ok b
        → (p : A × S) × (m s ≡ ok p) × (f p.0 p.1 ≡ ok b)
    go (ok (a, t)) e h' = ((a, t), e, h')
    go (err x) e h' = cc

-- A sequence is answered when its first part is, and what follows is, wherever that starts.
pub >>=-is_ok :
    {S A B : Type 0} (m : Exec S A) (f : A → Exec S B) (s : S) (b : Bool)
    → ((a : A) (t : S) → is_ok (f a t) ≡ b)
    → is_ok ((m >>= f) s) ≡ (is_ok (m s) && b)
>>=-is_ok {S} {A} {B} m f s b h = go (m s)
  where
    go :
        (r : Result (A × S))
        → is_ok (elim r as (λ _. Result (B × S)) [ ok (a, t) ↦ f a t | err e ↦ err e ])
          ≡ (is_ok r && b)
    go (ok (a, t)) = h a t
    go (err e) = refl

-- The tables that a request leaves: those before it where it is refused.
abbrev pub left_by : {A S : Type 0} → Result (A × S) → S → S
left_by (ok (a, s')) s = s'
left_by (err e) s = s

-- What holds of the tables before, and of those of an answer, holds of those that are left.
pub left_by-cases :
    {A S : Type 0} (P : S → Type 0) (r : Result (A × S)) (s : S)
    → P s
    → ((a : A) (s' : S) → r ≡ ok (a, s') → P s')
    → P (left_by r s)
left_by-cases P (ok (a, s')) s before answered = answered a s' refl
left_by-cases P (err e) s before answered = before
