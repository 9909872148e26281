-- ===== src/DeviceFlows/Take.antt =====
-- What is left of a list when the last entry takes the place of one of them
-- (rw_core/core/device_agent.go).
use vol_2619_voltha_go.Prelude.{
  ℕ, arith, ◌-◌, zero, suc, some, some-injective, List, [], ◌∷◌, length, get_elem?, set_at, ◌≡◌,
  refl, sym, All, subst,
}
use vol_2619_voltha_go.DeviceFlows.Changes.{delete_without_preserving_order, drop_last, at_last}

module _ {A : Type 0} where
  -- The two lists have the same entries, each as many times.
  pub data Rearranged : List A → List A → Type 0 where
    same : (xs : List A) → Rearranged xs xs
    cons : (x : A) {xs ys : List A} → Rearranged xs ys → Rearranged (x ∷ xs) (x ∷ ys)
    swap : (x y : A) (xs : List A) → Rearranged (x ∷ y ∷ xs) (y ∷ x ∷ xs)
    trans : {xs ys zs : List A} → Rearranged xs ys → Rearranged ys zs → Rearranged xs zs

  pub All-Rearranged : (P : A → Type 0) {xs ys : List A} → Rearranged xs ys → All P xs → All P ys
  All-Rearranged P (same xs) h = h
  All-Rearranged P (cons x r) h = (h.0, All-Rearranged P r h.1)
  All-Rearranged P (swap x y xs) h = (h.1.0, (h.0, h.1.1))
  All-Rearranged P (trans r s) h = All-Rearranged P s (All-Rearranged P r h)

  pub Rearranged-symm : {xs ys : List A} → Rearranged xs ys → Rearranged ys xs
  Rearranged-symm (same xs) = same xs
  Rearranged-symm (cons x r) = cons x (Rearranged-symm r)
  Rearranged-symm (swap x y xs) = swap y x xs
  Rearranged-symm (trans r s) = trans (Rearranged-symm s) (Rearranged-symm r)

  abbrev last : A → List A → A
  last x [] = x
  last x (y ∷ xs) = last y xs

  get_elem?-last : (x : A) (xs : List A) → get_elem? (x ∷ xs) (length xs) ≡ some (last x xs)
  get_elem?-last x [] = refl
  get_elem?-last x (y ∷ xs) = get_elem?-last y xs

  last_first : (x : A) (xs : List A) → Rearranged (x ∷ xs) (last x xs ∷ drop_last (x ∷ xs))
  last_first x [] = same (x ∷ [])
  last_first x (y ∷ xs) = trans (cons x (last_first y xs)) (swap x (last y xs) _)

  drop_last-cons :
      (x l z : A) (xs : List A) (i : ℕ)
      → drop_last (x ∷ set_at i l (z ∷ xs)) ≡ x ∷ drop_last (set_at i l (z ∷ xs))
  unfolding set_at
  drop_last-cons x l z xs zero = refl
  drop_last-cons x l z xs (suc i) = refl

  taken :
      (x : A) (xs : List A) (i : ℕ) (y : A)
      → get_elem? (x ∷ xs) i ≡ some y
      → Rearranged (x ∷ xs) (y ∷ drop_last (set_at i (last x xs) (x ∷ xs)))
  unfolding set_at
  taken x [] zero y h = rw (sym (some-injective _ _ h)) (same (x ∷ []))
  taken x [] (suc i) y h = cc
  taken x (z ∷ xs) zero y h = rw (sym (some-injective _ _ h)) (cons x (last_first z xs))
  taken x (z ∷ xs) (suc i) y h =
      rw (drop_last-cons x (last z xs) z xs i) (trans (cons x (taken z xs i y h)) (swap x y _))

  pub delete-Rearranged :
      (xs : List A) (i : ℕ) (y : A)
      → get_elem? xs i ≡ some y
      → Rearranged xs (y ∷ delete_without_preserving_order xs i)
  unfolding delete_without_preserving_order
  delete-Rearranged [] i y h = cc
  delete-Rearranged (x ∷ xs) i y h =
      subst (λ o. Rearranged (x ∷ xs) (y ∷ at_last o i (x ∷ xs))) (sym at_end) (taken x xs i y h)
    where
      at_end : get_elem? (x ∷ xs) (suc (length xs) - 1) ≡ some (last x xs)
      at_end =
          subst (λ n. get_elem? (x ∷ xs) n ≡ some (last x xs)) (omega arith) (get_elem?-last x xs)
