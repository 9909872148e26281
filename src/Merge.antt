-- ===== src/Merge.antt =====
-- db/model/merge.go: the three-way merge of the revisions of a node. Revisions, their configurations and the
-- merge of a child are parameters. A Go map is iterated in the order of its association list; an index
-- out of range panics. The messages that are only logged are left out.
pub mod Node
pub mod Keys
pub mod Removal
use vol_2619_voltha_go.Prelude.{
  ℕ, suc, String, Bool, true, false, Option, none, some, List, [], ◌∷◌, ◌++◌, ◌&&◌, ◌||◌, not,
  str_eq, if◌then◌else◌, Map, lookup, insert, string_key, get_elem?, remove_at, set_at, is_some,
  is_empty, any, map, each, length, reject,
}
use vol_2619_voltha_go.Status.{Run, returned, panicked, and_then}

-- The functions of a revision: its key under the name of a field, its hash, that of its configuration,
-- and whether two revisions, or the configurations of two, are the same object; and the merge of a child,
-- none for nil.
pub record RevisionOps (R : Type 0) : Type 0 where
  pub key : R → String
  pub get_hash : R → String
  pub config_hash : R → String
  pub same_revision : R → R → Bool
  pub same_config : R → R → Bool
  pub merge_child : R → Option R

pub data ChangeTuple (R : Type 0) : Type 0 where
  post_add : R → ChangeTuple R
  post_remove : R → ChangeTuple R
  post_list_change : String → ChangeTuple R
  post_update : ChangeTuple R

-- The name of the key of a field, empty for none, and whether the field holds a list.
pub record ChildType : Type 0 where
  pub key : String
  pub is_container : Bool

pub record ChangeAnalysis : Type 0 where
  pub key_map1 : Map String ℕ
  pub key_map2 : Map String ℕ
  pub added_keys : List String
  pub removed_keys : List String
  pub changed_keys : List String

-- What the merge of a field has done: the new list, with none for nil, the changes and the revisions to
-- discard.
pub record Merged (R : Type 0) : Type 0 where
  pub new_list : List (Option R)
  pub changes : List (ChangeTuple R)
  pub revs_to_discard : List R

abbrev pub index : Map String ℕ → String → ℕ
index m k = elim (lookup k m) [ none ↦ 0 | some i ↦ i ]

abbrev pub keys_of : Map String ℕ → List String
keys_of m = map (λ e. e.0) m

abbrev pub contains : List String → String → Bool
contains ks k = any (str_eq k) ks

module _ {R : Type 0} where
  abbrev pub nil_list : Option (List R) → List R
  nil_list none = []
  nil_list (some rs) = rs

module _ {R : Type 0} (O : RevisionOps R) where
  abbrev pub same_all : List R → List R → Bool
  same_all [] [] = true
  same_all (a ∷ as_) (b ∷ bs) = O.same_revision a b && same_all as_ bs
  same_all [] (b ∷ bs) = false
  same_all (a ∷ as_) [] = false

  -- A list may be nil.
  unfoldable pub revisions_are_equal : Option (List R) → Option (List R) → Bool
  revisions_are_equal none none = true
  revisions_are_equal (some xs) (some ys) = same_all xs ys
  revisions_are_equal none (some ys) = false
  revisions_are_equal (some xs) none = false

  unfoldable pub key_map : ℕ → List R → Map String ℕ → Map String ℕ
  key_map i [] m = m
  key_map i (r ∷ rs) m = key_map (suc i) rs (insert (O.key r) i m)

  abbrev hash_at : List R → ℕ → Option String
  hash_at rs i = elim (get_elem? rs i) [ none ↦ none | some r ↦ some (O.get_hash r) ]

  abbrev differ : Option String → Option String → Bool
  differ (some a) (some b) = not (str_eq a b)
  differ _ _ = true

  unfoldable pub new_change_analysis : List R → List R → ChangeAnalysis
  new_change_analysis lst1 lst2 =
      let m1 = key_map 0 lst1 [] in
      let m2 = key_map 0 lst2 [] in
      record {
        key_map1 = m1;
        key_map2 = m2;
        added_keys = reject (λ k. is_some (lookup k m1)) (keys_of m2);
        removed_keys = reject (λ k. is_some (lookup k m2)) (keys_of m1);
        changed_keys =
            reject
              (λ k.
                not (is_some (lookup k m2))
                || not (differ (hash_at lst1 (index m1 k)) (hash_at lst2 (index m2 k))))
              (keys_of m1);
      }

  -- A child that is merged takes its place in the list, unless the merge gives nil.
  abbrev pub merged_at : Option R → ℕ → List (Option R) → List (Option R)
  merged_at none i rs = rs
  merged_at (some r) i rs = set_at i (some r) rs

  -- The revision at an index, none for one that is out of range or nil.
  abbrev pub revision_at : List (Option R) → ℕ → Option R
  revision_at rs i = elim (get_elem? rs i) [ none ↦ none | some r ↦ r ]

  abbrev pub merge_one : Option R → ℕ → List (Option R) → List (Option R)
  merge_one none i rs = rs
  merge_one (some r) i rs = merged_at (O.merge_child r) i rs

  unfoldable pub merge_at : ℕ → List (Option R) → List (Option R)
  merge_at i rs = merge_one (revision_at rs i) i rs

  abbrev pub added_change : ℕ → List (Option R) → List (ChangeTuple R)
  added_change i rs = elim (revision_at rs i) [
    | none ↦ []
    | some r ↦ elim (O.merge_child r) [ none ↦ [] | some n ↦ post_add n ∷ [] ]
  ]

  -- The loop over the added keys of the source.
  unfoldable pub take_added : Map String ℕ → List String → Merged R → Merged R
  take_added m ks u =
      each
        (λ k v. record v {
          new_list = merge_at (index m k) v.new_list;
          changes = v.changes ++ added_change (index m k) v.new_list;
        })
        ks u

  -- The loop over the removed keys of the source.
  unfoldable pub take_removed : List R → Map String ℕ → List String → Merged R → Merged R
  take_removed fork m ks u =
      each
        (λ k v. elim (get_elem? fork (index m k)) [
          | none ↦ v
          | some old ↦ record v {
            changes = v.changes ++ post_remove old ∷ [];
            revs_to_discard = v.revs_to_discard ++ old ∷ [];
          }
        ])
        ks u

  -- The loop over the changed keys of the source.
  unfoldable pub take_changed : Map String ℕ → List String → Merged R → Merged R
  take_changed m ks u = each (λ k v. record v { new_list = merge_at (index m k) v.new_list }) ks u

  -- A keyed field that the destination has not changed since the fork.
  unfoldable pub take_source : List R → List R → Merged R
  take_source fork src =
      let a = new_change_analysis fork src in
      take_changed a.key_map2 a.changed_keys (
        take_removed fork a.key_map1 a.removed_keys (
          take_added a.key_map2 a.added_keys
            (record { new_list = map some src; changes = []; revs_to_discard = [] })))

  -- The loop over the removed keys of the source, for a destination that has changed: the indexes are
  -- those of the destination before the loop. An old revision that is nil panics too, where its data are
  -- read.
  unfoldable pub remove_each : Map String ℕ → List String → List String → Merged R → Run (Merged R)
  remove_each m removed [] u = returned u
  remove_each m removed (k ∷ ks) u =
      if contains removed k
      then remove_each m removed ks u
      else elim (revision_at u.new_list (index m k)) [
        | none ↦ panicked
        | some old ↦ remove_each m removed ks (record {
          new_list = remove_at (index m k) u.new_list;
          changes = u.changes ++ post_remove old ∷ [];
          revs_to_discard = u.revs_to_discard ++ old ∷ [];
        })
      ]

  -- A source revision that is new to the destination. A merge that gives nil panics, where the data of
  -- the revision is read.
  abbrev pub append_merged : Option R → R → Merged R → Run (Merged R)
  append_merged none r u = panicked
  append_merged (some n) r u =
      returned
        (record u { new_list = u.new_list ++ some n ∷ []; changes = u.changes ++ post_add r ∷ [] })

  unfoldable pub add_each :
      List R → Map String ℕ → List String → List String → Merged R → Run (Merged R)
  add_each src m added [] u = returned u
  add_each src m added (k ∷ ks) u =
      if contains added k then add_each src m added ks u else elim (get_elem? src (index m k)) [
        | none ↦ panicked
        | some r ↦ and_then (append_merged (O.merge_child r) r u) (add_each src m added ks)
      ]

  abbrev pub is_conflict : Option R → Option R → Bool
  is_conflict (some d) (some s) =
      str_eq (O.get_hash d) (O.get_hash s) || not (str_eq (O.config_hash d) (O.config_hash s))
  is_conflict _ _ = true

  -- A changed revision of the source: one that the destination has removed, or changed to the same or
  -- under another configuration, leaves the list.
  abbrev pub leaves_list : ChangeAnalysis → List R → List R → Map String ℕ → String → Bool
  leaves_list dst dst_list src m k =
      contains dst.removed_keys k
      || (contains dst.changed_keys k
          && is_conflict (get_elem? dst_list (index dst.key_map2 k)) (get_elem? src (index m k)))

  abbrev pub replaced : ChangeAnalysis → List R → Map String ℕ → String → Merged R → Merged R
  replaced dst src m k u = record u {
    new_list = elim (get_elem? src (index m k)) [
      | none ↦ u.new_list
      | some r ↦ set_at (index dst.key_map2 k) (O.merge_child r) u.new_list
    ];
  }

  unfoldable pub change_each :
      ChangeAnalysis → List R → List R → Map String ℕ → List String → Merged R → Merged R
  change_each dst dst_list src m ks u =
      each (λ k v. if leaves_list dst dst_list src m k then v else replaced dst src m k v) ks u

  -- A keyed field that the source and the destination have both changed.
  unfoldable pub merge_both : List R → List R → List R → Run (Merged R)
  merge_both fork src dst =
      let s = new_change_analysis fork src in
      let d = new_change_analysis fork dst in
      and_then
        (add_each src s.key_map2 d.added_keys s.added_keys
          (record { new_list = map some dst; changes = []; revs_to_discard = [] }))
        (λ u.
          remove_each d.key_map2 d.removed_keys s.removed_keys
            (change_each d dst src s.key_map2 s.changed_keys u))

  -- A field, with its three lists: none for a field that is left as it is. The branch of a field without a
  -- key for a source that is as the fork is left out: the destination then is as the source.
  unfoldable pub merge_field :
      ChildType → Option (List R) → Option (List R) → Option (List R) → Run (Option (Merged R))
  merge_field field fork src dst =
      let both = merge_both (nil_list fork) (nil_list src) (nil_list dst) in
      if revisions_are_equal dst src
      then returned none
      else if str_eq field.key ""
      then returned none
      else if revisions_are_equal dst fork
      then returned (some (take_source (nil_list fork) (nil_list src)))
      else and_then both (λ u. returned (some u))
