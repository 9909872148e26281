-- ===== src/DeviceFlows/Changes.antt =====
-- rw_core/core/device_agent.go: the loops that compare the flows, or the groups, of a request with those
-- of the device. The code has each loop twice, for flows and for groups; here it is over any entries.
use vol_2619_voltha_go.Prelude.{
  ℕ, ◌-◌, Bool, true, false, Option, none, some, List, [], ◌∷◌, ◌++◌, length, get_elem?, is_some,
  reject, set_at, not,
}

-- `find` is the library's search for an entry that stands for the same flow or group, and `equal` is
-- proto.Equal.
pub record Finder (A : Type 0) : Type 0 where
  pub find : List A → A → Option (ℕ × A)
  pub equal : A → A → Bool

module _ {A : Type 0} where
  abbrev pub drop_last : List A → List A
  drop_last [] = []
  drop_last (x ∷ []) = []
  drop_last (x ∷ y ∷ xs) = x ∷ drop_last (y ∷ xs)

  abbrev pub at_last : Option A → ℕ → List A → List A
  at_last none i xs = xs
  at_last (some y) i xs = drop_last (set_at i y xs)

  -- The last entry takes the place of the one at the index, which is in range.
  unfoldable pub delete_without_preserving_order : List A → ℕ → List A
  delete_without_preserving_order xs i = at_last (get_elem? xs (length xs - 1)) i xs

-- updatedNew…, …ToDelete and updatedAll….
pub record Update (A : Type 0) : Type 0 where
  pub updated_new : List A
  pub to_delete : List A
  pub updated_all : List A

module _ {A : Type 0} (F : Finder A) where
  -- The loop over the existing entries; the accumulators are the two other results.
  abbrev pub update_loop : List A → List A → List A → List A → Update A
  update_loop new to_delete all [] = record {
    updated_new = new;
    to_delete = to_delete;
    updated_all = all ++ new;
  }
  update_loop new to_delete all (x ∷ existing) = elim (F.find new x) [
    | none ↦ update_loop new to_delete (all ++ x ∷ []) existing
    | some (i, y) ↦ elim (F.equal y x) [
      | true ↦
          update_loop (delete_without_preserving_order new i) to_delete (all ++ x ∷ []) existing
      | false ↦ update_loop new (to_delete ++ x ∷ []) all existing
    ]
  ]

  unfoldable pub to_update_to_delete : List A → List A → Update A
  to_update_to_delete new existing = update_loop new [] [] existing

  -- The entries for which the search in a list finds nothing, or something.
  unfoldable pub unmatched : List A → List A → List A
  unmatched others = reject (λ x. is_some (F.find others x))

  unfoldable pub matched : List A → List A → List A
  matched others = reject (λ x. not (is_some (F.find others x)))
