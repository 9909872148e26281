-- ===== src/Merge/Node.antt =====
-- db/model/merge.go: the merge of all the fields of a node.
use vol_2619_voltha_go.Prelude.{
  String, Bool, true, Option, none, some, List, [], ◌∷◌, ◌++◌, ◌||◌, not, if◌then◌else◌, Map,
  insert, string_key, is_empty, map,
}
use vol_2619_voltha_go.Status.{Run, returned, and_then}
use vol_2619_voltha_go.Merge.{RevisionOps, ChangeTuple, post_update, ChildType, Merged, merge_field}

module _ {R : Type 0} (O : RevisionOps R) where
  -- The children of the merged revision, by their field, with the changes and what is discarded.
  pub record MergedNode : Type 0 where
    pub new_children : Map String (List (Option R))
    pub node_changes : List (ChangeTuple R)
    pub node_discards : List R

  abbrev pub with_field : Bool → String → Option (Merged R) → MergedNode → MergedNode
  with_field dry_run name none n = n
  with_field dry_run name (some u) n = record {
    new_children = if dry_run then n.new_children else insert name u.new_list n.new_children;
    node_changes = n.node_changes ++ u.changes;
    node_discards = n.node_discards ++ u.revs_to_discard;
  }

  -- The loop over the fields, with the lists of the fork, the source and the destination.
  unfoldable pub merge_fields :
      Bool
      → (fork src dst : String → Option (List R)) → List (String × ChildType)
      → MergedNode
      → Run MergedNode
  merge_fields dry_run fork src dst [] n = returned n
  merge_fields dry_run fork src dst ((name, field) ∷ fields) n =
      and_then (merge_field O field (fork name) (src name) (dst name))
        (λ o. merge_fields dry_run fork src dst fields (with_field dry_run name o n))

  unfoldable pub is_config_changed : (fork src dst : R) → Bool
  is_config_changed fork src dst =
      if O.same_config dst fork then not (O.same_config dst src) else true

  -- What a merge gives: the revision that gets the new children, and the changes; none for a dry run or
  -- a destination without children.
  abbrev pub merge_result : Bool → Bool → (src dst : R) → MergedNode → Option (R × MergedNode)
  merge_result dry_run config_changed src dst n =
      let changed = record n { node_changes = n.node_changes ++ post_update ∷ [] } in
      if dry_run || is_empty n.new_children
      then none
      else if config_changed
      then some (src, changed)
      else some (dst, n)

  unfoldable pub merge_3way :
      Bool
      → (fork src dst : R) → (fork_children src_children dst_children : String → Option (List R))
      → Map String (List R)
      → List (String × ChildType)
      → Run (Option (R × MergedNode))
  merge_3way dry_run fork src dst fork_children src_children dst_children all_children fields =
      and_then
        (merge_fields dry_run fork_children src_children dst_children fields (record {
          new_children = map (λ c. (c.0, map some c.1)) all_children;
          node_changes = [];
          node_discards = [];
        }))
        (λ n. returned (merge_result dry_run (is_config_changed fork src dst) src dst n))
