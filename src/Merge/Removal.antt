-- ===== src/Merge/Removal.antt =====
-- The removal of revisions by the indexes that they had at first (db/model/merge.go).
use vol_2619_voltha_go.Prelude.{
  ℕ, zero, suc, ◌<◌, String, false, Option, none, some, List, [], ◌∷◌, ◌++◌, ◌≡◌, refl, ap, length,
  get_elem?, remove_at, Map, arith,
}
use vol_2619_voltha_go.Status.{panicked}
use vol_2619_voltha_go.Merge.{
  RevisionOps, Merged, index, contains, revision_at, remove_each, post_remove,
}

not_below : {n : ℕ} → suc n ≡ 0 → ⊥
not_below h = omega (arith, h)

too_few : {n i : ℕ} → suc i < suc n → suc n ≡ 1 → ⊥
too_few h e = omega (arith, h, e)

not_less : {n : ℕ} → n < 0 → ⊥
not_less h = omega (arith, h)

get_elem?-end : {A : Type 0} (xs : List A) (j : ℕ) → length xs ≡ j → get_elem? xs j ≡ none
get_elem?-end [] j h = refl
get_elem?-end (x ∷ xs) zero h = elim (not_below h) [ ]
get_elem?-end (x ∷ xs) (suc j) h = get_elem?-end xs j (omega (arith, h))

get_elem?-remove_at :
    {A : Type 0} (xs : List A) (i j : ℕ)
    → i < length xs
    → length xs ≡ suc j
    → get_elem? (remove_at i xs) j ≡ none
unfolding remove_at
get_elem?-remove_at [] i j h e = elim (not_less h) [ ]
get_elem?-remove_at (x ∷ xs) zero j h e = get_elem?-end xs j (omega (arith, e))
get_elem?-remove_at (x ∷ xs) (suc i) zero h e = elim (too_few h e) [ ]
get_elem?-remove_at (x ∷ xs) (suc i) (suc j) h e =
    get_elem?-remove_at xs i j (omega (arith, h)) (omega (arith, e))

module _ {R : Type 0} (O : RevisionOps R) where
  -- The removal of the revisions that the source has dropped panics when the index of the first
  -- key lies in the list and that of the second key is its last one, for two keys that the
  -- destination has kept: the first removal has moved the last revision.
  pub remove_each_lem :
      (m : Map String ℕ) (removed ks : List String) (k k' : String) (u : Merged R)
      → contains removed k ≡ false
      → contains removed k' ≡ false
      → index m k < length u.new_list
      → length u.new_list ≡ suc (index m k')
      → remove_each O m removed (k ∷ k' ∷ ks) u ≡ panicked
  unfolding remove_each
  remove_each_lem m removed ks k k' u h h' i e = rw h (at (revision_at O u.new_list (index m k)))
    where
      gone : revision_at O (remove_at (index m k) u.new_list) (index m k') ≡ none
      gone =
          ap (λ o. elim o [ none ↦ none | some r ↦ r ])
            (get_elem?-remove_at u.new_list (index m k) (index m k') i e)

      rest : R → Merged R
      rest old = record {
        new_list = remove_at (index m k) u.new_list;
        changes = u.changes ++ post_remove old ∷ [];
        revs_to_discard = u.revs_to_discard ++ old ∷ [];
      }

      at :
          (o : Option R)
          → elim o [ none ↦ panicked | some old ↦ remove_each O m removed (k' ∷ ks) (rest old) ]
            ≡ panicked
      at none = refl
      at (some old) = rw (h', gone) refl
