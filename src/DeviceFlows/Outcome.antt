-- ===== src/DeviceFlows/Outcome.antt =====
-- The tables that the comparisons of entries leave (rw_core/core/device_agent.go).
use mathlib.Core.List.{append-nil}
use vol_2619_voltha_go.Prelude.{
  Bool, true, false, List, [], ◌∷◌, ◌++◌, ◌≡◌, refl, sym, ap, ◌∙◌, any, All, All-map, All-reject,
  reject, is_some, not, if◌then◌else◌, inl, inr, Option-cases,
}
use vol_2619_voltha_go.DeviceFlows.Changes.{Finder, to_update_to_delete, unmatched, matched}
use vol_2619_voltha_go.DeviceFlows.Take.{
  Rearranged, same, cons, swap, trans, All-Rearranged, Rearranged-symm,
}
use vol_2619_voltha_go.DeviceFlows.Compare.{
  FinderLaws, ApartFrom, Apart, changed, to_update_to_delete-cases,
}

module _ {A : Type 0} where
  reject-eq : (p q : A → Bool) (xs : List A) → All (λ x. p x ≡ q x) xs → reject p xs ≡ reject q xs
  unfolding reject
  reject-eq p q [] h = refl
  reject-eq p q (x ∷ xs) h = rw (h.0, reject-eq p q xs h.1) refl

  All-every : {P : A → Type 0} → ((x : A) → P x) → (xs : List A) → All P xs
  All-every f [] = tt
  All-every f (x ∷ xs) = (f x, All-every f xs)

module _ {A : Type 0} (F : Finder A) (L : FinderLaws F) where
  -- Two entries do not match, either way round.
  ApartFrom-symm : (x : A) (xs : List A) → ApartFrom F L x xs → All (λ y. L.matches y x ≡ false) xs
  ApartFrom-symm x xs h = All-map (λ y e. L.matches_comm y x ∙ e) xs h

  Apart-Rearranged : {xs ys : List A} → Rearranged xs ys → Apart F L xs → Apart F L ys
  Apart-Rearranged (same xs) h = h
  Apart-Rearranged (cons x r) h = (All-Rearranged _ r h.0, Apart-Rearranged r h.1)
  Apart-Rearranged (swap x y xs) h = ((L.matches_comm y x ∙ h.0.0, h.1.0), (h.0.1, h.1.1))
  Apart-Rearranged (trans r s) h = Apart-Rearranged s (Apart-Rearranged r h)

  deleted-All :
      (Q : A → Type 0) (new existing : List A)
      → All Q existing
      → All Q (to_update_to_delete F new existing).to_delete
  deleted-All Q =
      to_update_to_delete-cases F L (λ new existing u. All Q existing → All Q u.to_delete)
        (λ new h. tt) (λ new x existing u apart rec h. rec h.1)
        (λ new x existing rest u r rec h. rec h.1) (λ new x existing u rec h. (h.0, rec h.1))

  updated-All :
      (Q : A → Type 0) (new existing : List A)
      → All Q new
      → All Q existing
      → All Q (to_update_to_delete F new existing).updated_all
  updated-All Q =
      to_update_to_delete-cases F L
        (λ new existing u. All Q new → All Q existing → All Q u.updated_all) (λ new k h. k)
        (λ new x existing u apart rec k h. (h.0, rec k h.1))
        (λ new x existing rest u r rec k h. (h.0, rec (All-Rearranged Q r k).1 h.1))
        (λ new x existing u rec k h. rec k h.1)

  -- The table that the comparison of a request with the existing flows, or groups, gives has
  -- every entry of the request: what holds of each entry of the table holds of each entry of the
  -- request.
  pub new-All :
      (Q : A → Type 0) (new existing : List A)
      → All Q (to_update_to_delete F new existing).updated_all
      → All Q new
  new-All Q =
      to_update_to_delete-cases F L (λ new existing u. All Q u.updated_all → All Q new) (λ new h. h)
        (λ new x existing u apart rec h. rec h.1)
        (λ new x existing rest u r rec h. All-Rearranged Q (Rearranged-symm r) (h.0, rec h.1))
        (λ new x existing u rec h. rec h)

  none_matching : (x : A) (xs : List A) → ApartFrom F L x xs → any (L.matches x) xs ≡ false
  none_matching x [] h = refl
  none_matching x (y ∷ xs) h = rw (h.0, none_matching x xs h.1) refl

  reject_first :
      (remove : List A) (x : A) (xs : List A)
      → any (L.matches x) remove ≡ false
      → reject (λ z. any (L.matches z) remove) (x ∷ xs)
        ≡ x ∷ reject (λ z. any (L.matches z) remove) xs
  unfolding reject
  reject_first remove x xs e = rw e refl

  reject_deleted :
      (remove : List A) (x : A) (xs : List A)
      → ApartFrom F L x xs
      → reject (λ z. any (L.matches z) (x ∷ remove)) (x ∷ xs)
        ≡ reject (λ z. any (L.matches z) remove) xs
  unfolding reject
  reject_deleted remove x xs h = rw (L.matches_refl x) (
      reject-eq (λ z. any (L.matches z) (x ∷ remove)) (λ z. any (L.matches z) remove) xs
        (All-map {P = λ z. L.matches x z ≡ false}
          {Q = λ z. any (L.matches z) (x ∷ remove) ≡ any (L.matches z) remove}
          (λ z e. rw (L.matches_comm z x ∙ e) refl) xs h))

  pub updated-changed :
      (new existing : List A)
      → Apart F L existing
      → (to_update_to_delete F new existing).updated_all
        ≡ changed F L
            (to_update_to_delete F new existing).to_delete
            (to_update_to_delete F new existing).updated_new
            existing
  unfolding reject
  updated-changed new existing apart =
      (to_update_to_delete-cases F L
        (λ new existing u.
          Apart F L existing
          → ((x : A) → ApartFrom F L x existing → ApartFrom F L x u.to_delete)
            × (u.updated_all ≡ changed F L u.to_delete u.updated_new existing))
        (λ new h. (λ x k. tt, refl))
        (λ new x existing u apart rec h.
          let (d, e) = rec h.1 in
          (λ y k. d y k.1, rw (none_matching x u.to_delete (d x h.0), e) refl))
        (λ new x existing rest u r rec h.
          let (d, e) = rec h.1 in
          (λ y k. d y k.1, rw (none_matching x u.to_delete (d x h.0), e) refl))
        (λ new x existing u rec h.
          let (d, e) = rec h.1 in
          (
            λ y k. (k.0, d y k.1),
            e ∙ ap (λ l. l ++ u.updated_new) (sym (reject_deleted u.to_delete x existing h.0)),
          ))
        new existing apart).1

  pub updated-Apart :
      (new existing : List A)
      → Apart F L new
      → Apart F L existing
      → Apart F L (to_update_to_delete F new existing).updated_all
  updated-Apart new existing k h =
      (to_update_to_delete-cases F L
        (λ new existing u.
          Apart F L new
          → Apart F L existing
          → ((x : A)
              → ApartFrom F L x new
              → ApartFrom F L x existing
              → ApartFrom F L x u.updated_all)
            × Apart F L u.updated_all)
        (λ new k h. (λ x a b. a, k))
        (λ new x existing u apart rec k h.
          let (d, e) = rec k h.1 in (λ y a b. (b.0, d y a b.1), (d x apart h.0, e)))
        (λ new x existing rest u r rec k h.
          let k' = Apart-Rearranged r k in
          let (d, e) = rec k'.1 h.1 in
          (λ y a b. (b.0, d y (All-Rearranged _ r a).1 b.1), (d x k'.0 h.0, e)))
        (λ new x existing u rec k h. let (d, e) = rec k h.1 in (λ y a b. d y a b.1, e)) new existing
        k h).1

  finds : (others : List A) (x : A) → is_some (F.find others x) ≡ any (L.matches x) others
  finds others x = elim (Option-cases (F.find others x)) [
    | inl e ↦ rw e (sym (L.find_none others x e))
    | inr ((i, y), e) ↦ rw e (sym (L.find_some others x i y e).1)
  ]

  -- What is left when the entries of a request are deleted.
  pub unmatched-changed :
      (others existing : List A) → unmatched F others existing ≡ changed F L others [] existing
  unfolding unmatched
  unmatched-changed others existing =
      reject-eq (λ x. is_some (F.find others x)) (λ x. any (L.matches x) others) existing
        (All-every (finds others) existing)
      ∙ sym (append-nil _)

  reject-All : (Q : A → Type 0) (p : A → Bool) (xs : List A) → All Q xs → All Q (reject p xs)
  reject-All Q p xs h = All-reject Q Q p (λ x q e. q) xs h

  reject-Apart : (p : A → Bool) (xs : List A) → Apart F L xs → Apart F L (reject p xs)
  unfolding reject
  reject-Apart p [] h = tt
  reject-Apart p (x ∷ xs) h = at (p x) (reject-Apart p xs h.1)
    where
      at :
          (b : Bool)
          → Apart F L (reject p xs)
          → Apart F L (if b then reject p xs else x ∷ reject p xs)
      at true rec = rec
      at false rec = (reject-All _ p xs h.0, rec)

  pub unmatched-Apart :
      (others existing : List A) → Apart F L existing → Apart F L (unmatched F others existing)
  unfolding unmatched
  unmatched-Apart others existing h = reject-Apart _ existing h

  matching :
      (p : A → Bool) (xs : List A)
      → Apart F L xs
      → All (λ z. any (L.matches z) (reject (λ x. not (p x)) xs) ≡ p z) xs
  unfolding reject
  matching p [] h = tt
  matching p (x ∷ xs) h = at (p x) refl (matching p xs h.1)
    where
      at :
          (b : Bool)
          → p x ≡ b
          → All (λ z. any (L.matches z) (reject (λ x. not (p x)) xs) ≡ p z) xs
          → All
              (λ z.
                any
                  (L.matches z)
                  (if not b then reject (λ x. not (p x)) xs else x ∷ reject (λ x. not (p x)) xs)
                ≡ p z)
              (x ∷ xs)
      at true e rec = (
        rw (L.matches_refl x, e) refl,
        All-map {Q = λ z. any (L.matches z) (x ∷ reject (λ x. not (p x)) xs) ≡ p z}
            (λ z (k, k'). rw (L.matches_comm z x ∙ k) k') xs (both _ _ xs h.0 rec),
      )
        where
          both : (P Q : A → Type 0) (ys : List A) → All P ys → All Q ys → All (λ y. P y × Q y) ys
          both P Q [] a b = tt
          both P Q (y ∷ ys) a b = ((a.0, b.0), both P Q ys a.1 b.1)
      at false e rec = (none_matching x _ (reject-All _ (λ x. not (p x)) xs h.0) ∙ sym e, rec)

  -- When what a request shares with the table is removed, only the rest of the table stays.
  pub matched-changed :
      (others existing add : List A)
      → Apart F L existing
      → changed F L (matched F others existing) add existing ≡ unmatched F others existing ++ add
  unfolding matched unmatched
  matched-changed others existing add h =
      ap (λ l. l ++ add)
        (reject-eq _ _ existing (matching (λ x. is_some (F.find others x)) existing h))
