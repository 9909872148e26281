-- ===== src/DeviceFlows/Compare.antt =====
-- What the comparison of a request's entries with the existing ones leaves
-- (rw_core/core/device_agent.go).
use mathlib.Core.List.{append_assoc, append-nil}
use vol_2619_voltha_go.Prelude.{
  ℕ, Bool, true, false, none, some, List, [], ◌∷◌, ◌++◌, ◌≡◌, refl, sym, ◌∙◌, subst, any, All,
  reject, get_elem?, ◌||◌, inl, inr, Bool-cases, Option-cases,
}
use vol_2619_voltha_go.DeviceFlows.Changes.{
  Finder, Update, update_loop, to_update_to_delete, delete_without_preserving_order,
}
use vol_2619_voltha_go.DeviceFlows.Take.{Rearranged, delete-Rearranged}

-- What the search relies on: two entries match when the parts that identify them are the same. The
-- search finds an entry that matches if there is one, and equal entries are the same.
pub record FinderLaws {A : Type 0} (F : Finder A) : Type 0 where
  pub matches : A → A → Bool
  pub matches_refl : (x : A) → matches x x ≡ true
  pub matches_comm : (x y : A) → matches x y ≡ matches y x
  pub find_none : (xs : List A) (x : A) → F.find xs x ≡ none → any (matches x) xs ≡ false
  pub find_some :
      (xs : List A) (x : A) (i : ℕ) (y : A)
      → F.find xs x ≡ some (i, y)
      → (get_elem? xs i ≡ some y) × (any (matches x) xs ≡ true)
  pub equal_eq : (x y : A) → F.equal x y ≡ true → x ≡ y

abbrev prepend : {A : Type 0} → List A → List A → Update A → Update A
prepend ds ks u = record {
  updated_new = u.updated_new;
  to_delete = ds ++ u.to_delete;
  updated_all = ks ++ u.updated_all;
}

module _ {A : Type 0} (F : Finder A) (L : FinderLaws F) where
  -- The entry is none of these.
  abbrev pub ApartFrom : A → List A → Type 0
  ApartFrom x xs = All (λ y. L.matches x y ≡ false) xs

  -- No two entries match.
  abbrev pub Apart : List A → Type 0
  Apart [] = Unit
  Apart (x ∷ xs) = ApartFrom x xs × Apart xs

  -- An adapter's table after a change: what matches an entry to remove goes.
  abbrev pub changed : (remove add table : List A) → List A
  changed remove add table = reject (λ x. any (L.matches x) remove) table ++ add

  module _ (new : List A) (x : A) (existing : List A) where
    loop_none :
        (ds ks : List A)
        → F.find new x ≡ none
        → update_loop F new ds ks (x ∷ existing) ≡ update_loop F new ds (ks ++ x ∷ []) existing
    loop_none ds ks e = rw (e, update_loop) refl

    loop_equal :
        (ds ks : List A) (i : ℕ) (y : A)
        → F.find new x ≡ some (i, y)
        → F.equal y x ≡ true
        → update_loop F new ds ks (x ∷ existing)
          ≡ update_loop F (delete_without_preserving_order new i) ds (ks ++ x ∷ []) existing
    loop_equal ds ks i y e e' = rw (e, e', update_loop) refl

    loop_other :
        (ds ks : List A) (i : ℕ) (y : A)
        → F.find new x ≡ some (i, y)
        → F.equal y x ≡ false
        → update_loop F new ds ks (x ∷ existing) ≡ update_loop F new (ds ++ x ∷ []) ks existing
    loop_other ds ks i y e e' = rw (e, e', update_loop) refl

  any-ApartFrom : (x : A) (xs : List A) → any (L.matches x) xs ≡ false → ApartFrom x xs
  any-ApartFrom x [] h = tt
  any-ApartFrom x (y ∷ ys) h = at (L.matches x y) refl h (any-ApartFrom x ys)
    where
      at :
          (b : Bool)
          → L.matches x y ≡ b
          → (b || any (L.matches x) ys) ≡ false
          → (any (L.matches x) ys ≡ false → ApartFrom x ys)
          → ApartFrom x (y ∷ ys)
      at true e k rec = cc
      at false e k rec = (e, rec k)

  prepend_kept :
      (ds ks : List A) (x : A) (u : Update A)
      → prepend ds (ks ++ x ∷ []) u ≡ prepend ds ks (prepend [] (x ∷ []) u)
  prepend_kept ds ks x u = rw (append_assoc ks (x ∷ []) u.updated_all) refl

  prepend_deleted :
      (ds ks : List A) (x : A) (u : Update A)
      → prepend (ds ++ x ∷ []) ks u ≡ prepend ds ks (prepend (x ∷ []) [] u)
  prepend_deleted ds ks x u = rw (append_assoc ds (x ∷ []) u.to_delete) refl

  -- Every case of the loop, for a relation of its arguments to its results.
  module _ (P : List A → List A → Update A → Type 0)
      (none_left : (new : List A)
        → P new [] (record { updated_new = new; to_delete = []; updated_all = new }))
      (keeps_apart : (new : List A) (x : A) (existing : List A) (u : Update A)
        → ApartFrom x new
        → P new existing u
        → P new (x ∷ existing) (prepend [] (x ∷ []) u))
      (keeps_equal : (new : List A) (x : A) (existing rest : List A) (u : Update A)
        → Rearranged new (x ∷ rest)
        → P rest existing u
        → P new (x ∷ existing) (prepend [] (x ∷ []) u))
      (drops : (new : List A) (x : A) (existing : List A) (u : Update A)
        → P new existing u
        → P new (x ∷ existing) (prepend (x ∷ []) [] u)) where
    abbrev Loop : List A → List A → Type 0
    Loop new existing =
        (u : Update A) × P new existing u
        × ((ds ks : List A) → update_loop F new ds ks existing ≡ prepend ds ks u)

    runs_through : (new existing : List A) → Loop new existing
    runs_through new [] = (
      record { updated_new = new; to_delete = []; updated_all = new },
      none_left new,
      λ ds ks. rw (append-nil ds) refl,
    )
    runs_through new (x ∷ existing) = elim (Option-cases (F.find new x)) [
      | inl e ↦
          let (u, p, eq) = runs_through new existing in
          (
            prepend [] (x ∷ []) u,
            keeps_apart new x existing u (any-ApartFrom x new (L.find_none new x e)) p,
            λ ds ks.
                loop_none new x existing ds ks e ∙ eq ds (ks ++ x ∷ []) ∙ prepend_kept ds ks x u,
          )
      | inr ((i, y), e) ↦ elim (Bool-cases (F.equal y x)) [
        | inl e' ↦
            let rest = delete_without_preserving_order new i in
            let (u, p, eq) = runs_through rest existing in
            (
              prepend [] (x ∷ []) u,
              keeps_equal new x existing rest u
                  (subst (λ z. Rearranged new (z ∷ rest)) (L.equal_eq y x e')
                    (delete-Rearranged new i y (L.find_some new x i y e).0))
                  p,
              λ ds ks.
                  loop_equal new x existing ds ks i y e e'
                  ∙ eq ds (ks ++ x ∷ [])
                  ∙ prepend_kept ds ks x u,
            )
        | inr e' ↦
            let (u, p, eq) = runs_through new existing in
            (
              prepend (x ∷ []) [] u,
              drops new x existing u p,
              λ ds ks.
                  loop_other new x existing ds ks i y e e'
                  ∙ eq (ds ++ x ∷ []) ks
                  ∙ prepend_deleted ds ks x u,
            )
      ]
    ]

    pub to_update_to_delete-cases :
        (new existing : List A) → P new existing (to_update_to_delete F new existing)
    unfolding to_update_to_delete
    to_update_to_delete-cases new existing =
        let (u, p, eq) = runs_through new existing in subst (P new existing) (sym (eq [] [])) p
