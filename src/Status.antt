-- ===== src/Status.antt =====
-- Go's error results and panics. A function that may fail returns the state that it leaves and the error, none
-- for nil; the codes are those of the gRPC statuses that the core builds (rw_core).
use mathlib.Core.Bool.{true≢false}
use vol_2619_voltha_go.Prelude.{
  Bool, true, false, Option, none, some, List, [], ◌∷◌, ◌≡◌, ◌≢◌, sym, ap, refl,
}

pub data Code : Type 0 where
  failed_precondition not_found aborted internal invalid_argument permission_denied : Code
  unavailable unimplemented other : Code

pub data Result {ℓ} (A : Type ℓ) : Type ℓ where
  ok : A → Result A
  err : Code → Result A

abbrev pub is_ok {ℓ} : {A : Type ℓ} → Result A → Bool
is_ok (ok a) = true
is_ok (err c) = false

pub err-ne-ok : {A : Type 0} {c : Code} {a : A} → err c ≢ ok a
err-ne-ok e = true≢false (sym (ap is_ok e))

-- Go code that returns, or panics.
pub data Run {ℓ} (A : Type ℓ) : Type ℓ where
  returned : A → Run A
  panicked : Run A

abbrev pub and_then : {A B : Type 0} → Run A → (A → Run B) → Run B
and_then (returned a) f = f a
and_then panicked f = panicked

-- The code returns, and what it returns has a property.
abbrev pub ReturnsWith : {A : Type 0} → (A → Type 0) → Run A → Type 0
ReturnsWith P (returned a) = P a
ReturnsWith P panicked = ⊥

pub then_returns :
    {A B : Type 0} (P : A → Type 0) (Q : B → Type 0) (r : Run A) (f : A → Run B)
    → ReturnsWith P r
    → ((a : A) → P a → ReturnsWith Q (f a))
    → ReturnsWith Q (and_then r f)
then_returns P Q (returned a) f h k = k a h
then_returns P Q panicked f h k = elim h [ ]

-- What the code returns, if it does not panic, has a property.
abbrev pub IfReturns : {A : Type 0} → (A → Type 0) → Run A → Type 0
IfReturns P (returned a) = P a
IfReturns P panicked = Unit

pub and_then-IfReturns :
    {A B : Type 0} (P : A → Type 0) (Q : B → Type 0) (r : Run A) (f : A → Run B)
    → IfReturns P r
    → ((a : A) → P a → IfReturns Q (f a))
    → IfReturns Q (and_then r f)
and_then-IfReturns P Q (returned a) f h k = k a h
and_then-IfReturns P Q panicked f h k = tt

module _ {ℓ} {S : Type ℓ} where
  -- `if err := first(); err != nil { return err }; then`.
  infixl 10 ◌▸◌
  unfoldable pub ◌▸◌ : S × Option Code → (S → S × Option Code) → S × Option Code
  (s, none) ▸ f = f s
  (s, some c) ▸ f = (s, some c)

module _ {ℓ} {A S : Type ℓ} where
  -- A `for … range` loop that returns at the first error of its body.
  unfoldable pub for_each : (A → S → S × Option Code) → List A → S → S × Option Code
  for_each body [] s = (s, none)
  for_each body (x ∷ xs) s = body x s ▸ for_each body xs

module _ {ℓ κ} {S : Type ℓ} (P : S → Type κ) where
  pub ▸-inv :
      (m : S × Option Code) (f : S → S × Option Code)
      → P m.0
      → ((s : S) → P s → P (f s).0)
      → P (m ▸ f).0
  unfolding ◌▸◌
  ▸-inv (s, none) f h k = k s h
  ▸-inv (s, some c) f h k = h

module _ {ℓ κ} {S : Type ℓ} (P : S → Type κ) where
  pub ▸-step :
      (m : S × Option Code) (f : S → S × Option Code)
      → P m.0
      → (m.1 ≡ none → P (f m.0).0)
      → P (m ▸ f).0
  unfolding ◌▸◌
  ▸-step (s, none) f h k = k refl
  ▸-step (s, some c) f h k = h

module _ {ℓ} {S : Type ℓ} where
  pub ▸-none :
      (m : S × Option Code) (f : S → S × Option Code)
      → (m ▸ f).1 ≡ none
      → (m.1 ≡ none) × ((f m.0).1 ≡ none) × ((m ▸ f).0 ≡ (f m.0).0)
  unfolding ◌▸◌
  ▸-none (s, none) f h = (refl, h, refl)
  ▸-none (s, some c) f h = cc

module _ {ℓ κ} {A S : Type ℓ} (P : S → Type κ) where
  pub for_each-inv :
      (body : A → S → S × Option Code)
      → ((x : A) (s : S) → P s → P (body x s).0)
      → (xs : List A) (s : S) → P s
      → P (for_each body xs s).0
  unfolding for_each
  for_each-inv body keep [] s h = h
  for_each-inv body keep (x ∷ xs) s h =
      ▸-inv P (body x s) (for_each body xs) (keep x s h) (for_each-inv body keep xs)
