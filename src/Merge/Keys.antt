-- ===== src/Merge/Keys.antt =====
-- The list that a merge takes over from the source (db/model/merge.go).
use vol_2619_voltha_go.Prelude.{
  ℕ, zero, suc, String, Option, none, some, List, [], ◌∷◌, ◌++◌, ◌≡◌, refl, sym, ◌∙◌, ap, get_elem?,
  set_at, map, each-inv,
}
use vol_2619_voltha_go.Merge.{
  post_remove, ChangeAnalysis, RevisionOps, Merged, index, merged_at, revision_at, merge_one,
  merge_at, take_added, take_removed, take_changed, take_source, new_change_analysis,
}

module _ {R : Type 0} (O : RevisionOps R) where
  -- The key of an entry, none for nil.
  abbrev pub entry_key : Option R → Option String
  entry_key none = none
  entry_key (some r) = some (O.key r)

  abbrev pub entry_keys : List (Option R) → List (Option String)
  entry_keys = map entry_key

  -- The merge of a child keeps its key.
  abbrev pub KeepsKeys : Type 0
  KeepsKeys = (r n : R) → O.merge_child r ≡ some n → O.key n ≡ O.key r

  set_at-entry_keys :
      (i : ℕ) (r n : R) (rs : List (Option R))
      → revision_at O rs i ≡ some r
      → O.key n ≡ O.key r
      → entry_keys (set_at i (some n) rs) ≡ entry_keys rs
  unfolding set_at
  set_at-entry_keys i r n [] h e = refl
  set_at-entry_keys zero r n (x ∷ rs) h e =
      rw e (ap (λ k. k ∷ entry_keys rs) (sym (ap entry_key h)))
  set_at-entry_keys (suc i) r n (x ∷ rs) h e =
      ap (λ ks. entry_key x ∷ ks) (set_at-entry_keys i r n rs h e)

  module _ (keeps : KeepsKeys) where
    merge_at-entry_keys :
        (i : ℕ) (rs : List (Option R)) → entry_keys (merge_at O i rs) ≡ entry_keys rs
    unfolding merge_at
    merge_at-entry_keys i rs = at (revision_at O rs i) refl
      where
        merged :
            (r : R) (o : Option R)
            → revision_at O rs i ≡ some r
            → O.merge_child r ≡ o
            → entry_keys (merged_at O o i rs) ≡ entry_keys rs
        merged r none e f = refl
        merged r (some n) e f = set_at-entry_keys i r n rs e (keeps r n f)

        at :
            (o : Option R)
            → revision_at O rs i ≡ o
            → entry_keys (merge_one O o i rs) ≡ entry_keys rs
        at none e = refl
        at (some r) e = merged r (O.merge_child r) e refl

    abbrev HasKeys : List (Option String) → Merged R → Type 0
    HasKeys ks u = entry_keys u.new_list ≡ ks

    -- When the merge of a child keeps its key, the list that a merge takes over from the source,
    -- in a keyed field that the destination has not changed, has the keys of the source in their
    -- order, whatever the merges of the children give.
    pub entry_keys-take_source :
        (fork src : List R)
        → entry_keys (take_source O fork src).new_list ≡ entry_keys (map some src)
    unfolding take_source take_added take_removed take_changed
    entry_keys-take_source fork src =
        each-inv (HasKeys _) _ (λ k v h. merge_at-entry_keys (index a.key_map2 k) v.new_list ∙ h)
          a.changed_keys _
          (each-inv (HasKeys _) _ (λ k v h. removed v (get_elem? fork (index a.key_map1 k)) h)
            a.removed_keys _
            (each-inv (HasKeys _) _
              (λ k v h. merge_at-entry_keys (index a.key_map2 k) v.new_list ∙ h) a.added_keys _
              refl))
      where
        a : ChangeAnalysis
        a = new_change_analysis O fork src

        removed :
            (v : Merged R) (o : Option R)
            → HasKeys (entry_keys (map some src)) v
            → HasKeys (entry_keys (map some src)) (elim o [
              | none ↦ v
              | some old ↦ record v {
                changes = v.changes ++ post_remove old ∷ [];
                revs_to_discard = v.revs_to_discard ++ old ∷ [];
              }
            ])
        removed v none h = h
        removed v (some old) h = h
