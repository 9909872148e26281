-- ===== src/Prelude/Lists.antt =====
-- Lists over the native numbers, and predicates on all the members of a list. It stands for no
-- code of the repository.
use Prim.Native.Nat.{ℕ, zero, suc, ◌+◌}
use mathlib.Core.Path.{◌≡◌, refl}
use mathlib.Core.Bool.{Bool, true, false, ◌&&◌, ◌||◌}
use mathlib.Core.Option.{Option, none, some}
use mathlib.Core.List.{List, [], ◌∷◌, ◌++◌}
use native.Mathlib.Omega.{arith}
use vol_2619_voltha_go.Prelude.Tests.{if◌then◌else◌}

module _ {ℓ} {A : Type ℓ} where
  abbrev pub length : List A → ℕ
  length [] = 0
  length (x ∷ xs) = suc (length xs)

  abbrev pub get_elem? : List A → ℕ → Option A
  get_elem? [] i = none
  get_elem? (x ∷ xs) zero = some x
  get_elem? (x ∷ xs) (suc i) = get_elem? xs i

  abbrev pub is_empty : List A → Bool
  is_empty [] = true
  is_empty (x ∷ xs) = false

  abbrev pub all : (A → Bool) → List A → Bool
  all p [] = true
  all p (x ∷ xs) = p x && all p xs

  abbrev pub any : (A → Bool) → List A → Bool
  any p [] = false
  any p (x ∷ xs) = p x || any p xs

  -- The members that fail a test.
  unfoldable pub reject : (A → Bool) → List A → List A
  reject p [] = []
  reject p (x ∷ xs) = let rest = reject p xs in if p x then rest else x ∷ rest

  abbrev pub find_first : (A → Bool) → List A → Option A
  find_first p [] = none
  find_first p (x ∷ xs) = let rest = find_first p xs in if p x then some x else rest

  -- append(flows[:i], flows[i+1:]...)
  unfoldable pub remove_at : ℕ → List A → List A
  remove_at i [] = []
  remove_at zero (x ∷ xs) = xs
  remove_at (suc i) (x ∷ xs) = x ∷ remove_at i xs

  -- groups[i] = x
  unfoldable pub set_at : ℕ → A → List A → List A
  set_at i y [] = []
  set_at zero y (x ∷ xs) = y ∷ xs
  set_at (suc i) y (x ∷ xs) = x ∷ set_at i y xs

  pub length-append : (xs ys : List A) → length (xs ++ ys) ≡ length xs + length ys
  length-append [] ys = omega arith
  length-append (x ∷ xs) ys = omega (arith, length-append xs ys)

  pub reject-none : (p : A → Bool) (xs : List A) → any p xs ≡ false → reject p xs ≡ xs
  unfolding reject
  reject-none p [] h = refl
  reject-none p (x ∷ xs) h = at (p x) h (reject-none p xs)
    where
      at :
          (b : Bool)
          → (b || any p xs) ≡ false
          → (any p xs ≡ false → reject p xs ≡ xs)
          → (if b then reject p xs else x ∷ reject p xs) ≡ x ∷ xs
      at true h rec = cc
      at false h rec = rw (rec h)

module _ {ℓ κ} {A : Type ℓ} {S : Type κ} where
  -- A loop without an early end.
  abbrev pub each : (A → S → S) → List A → S → S
  each body [] s = s
  each body (x ∷ xs) s = each body xs (body x s)

  pub each-inv {μ} :
      (P : S → Type μ) (body : A → S → S)
      → ((x : A) (s : S) → P s → P (body x s))
      → (xs : List A) (s : S) → P s
      → P (each body xs s)
  each-inv P body keep [] s h = h
  each-inv P body keep (x ∷ xs) s h = each-inv P body keep xs (body x s) (keep x s h)

module _ {ℓ κ} {A : Type ℓ} where
  abbrev pub All : (A → Type κ) → List A → Type κ
  All P [] = Unit
  All P (x ∷ xs) = P x × All P xs

module _ {ℓ κ} {A : Type ℓ} (P : A → Type κ) where
  pub All-append : (xs ys : List A) → All P xs → All P ys → All P (xs ++ ys)
  All-append [] ys h k = k
  All-append (x ∷ xs) ys h k = (h.0, All-append xs ys h.1 k)

  pub All-remove_at : (i : ℕ) (xs : List A) → All P xs → All P (remove_at i xs)
  unfolding remove_at
  All-remove_at i [] h = h
  All-remove_at zero (x ∷ xs) h = h.1
  All-remove_at (suc i) (x ∷ xs) h = (h.0, All-remove_at i xs h.1)

  pub All-set_at : (i : ℕ) (y : A) (xs : List A) → P y → All P xs → All P (set_at i y xs)
  unfolding set_at
  All-set_at i y [] k h = h
  All-set_at zero y (x ∷ xs) k h = (k, h.1)
  All-set_at (suc i) y (x ∷ xs) k h = (h.0, All-set_at i y xs k h.1)

module _ {ℓ κ} {A : Type ℓ} (P Q : A → Type κ) (p : A → Bool) where
  -- What survives a rejection has the first property and fails the test.
  pub All-reject :
      ((x : A) → P x → p x ≡ false → Q x) → (xs : List A) → All P xs → All Q (reject p xs)
  unfolding reject
  All-reject f [] h = h
  All-reject f (x ∷ xs) h = at (p x) refl (All-reject f xs h.1)
    where
      at :
          (b : Bool)
          → p x ≡ b
          → All Q (reject p xs)
          → All Q (if b then reject p xs else x ∷ reject p xs)
      at true e rest = rest
      at false e rest = (f x h.0 e, rest)

module _ {ℓ κ} {A : Type ℓ} {P Q : A → Type κ} where
  pub All-map : ((x : A) → P x → Q x) → (xs : List A) → All P xs → All Q xs
  All-map f [] h = h
  All-map f (x ∷ xs) h = (f x h.0, All-map f xs h.1)
