-- ===== src/Tests/Merge.antt =====
-- Revisions that are pairs of a key and a hash (db/model/merge.go).
use vol_2619_voltha_go.Prelude.{
  String, str_eq, some, List, [], ◌∷◌, ◌&&◌, ◌≡◌, refl, sym, ap, map, some-injective, arith, insert,
  lookup, string_key,
}
use vol_2619_voltha_go.Status.{panicked}
use vol_2619_voltha_go.Merge.{RevisionOps, take_source, key_map, remove_each}
use vol_2619_voltha_go.Merge.Keys.{KeepsKeys, entry_keys, entry_keys-take_source}
use vol_2619_voltha_go.Merge.Removal.{remove_each_lem}

abbrev Revision : Type 0
Revision = String × String

abbrev ops : RevisionOps Revision
ops = record {
  key = λ r. r.0;
  get_hash = λ r. r.1;
  config_hash = λ r. r.1;
  same_revision = λ a b. str_eq a.0 b.0 && str_eq a.1 b.1;
  same_config = λ a b. str_eq a.1 b.1;
  merge_child = λ r. some (r.0, "merged");
}

ops-KeepsKeys : KeepsKeys ops
ops-KeepsKeys r n e = ap (λ p. p.0) (sym (some-injective _ _ e))

abbrev fork : List Revision
fork = ("a", "1") ∷ ("b", "1") ∷ []

abbrev source : List Revision
source = ("b", "2") ∷ ("c", "1") ∷ []

entry_keys-take_source_example :
    entry_keys ops (take_source ops fork source).new_list ≡ some "b" ∷ some "c" ∷ []
entry_keys-take_source_example = entry_keys-take_source ops ops-KeepsKeys fork source

-- The source has removed both revisions of the destination.
remove_each_lem_example :
    remove_each ops
      (key_map ops 0 fork [])
      []
      ("a" ∷ "b" ∷ [])
      (record { new_list = map some fork; changes = []; revs_to_discard = [] })
    ≡ panicked
unfolding key_map insert lookup
remove_each_lem_example =
    remove_each_lem ops (key_map ops 0 fork []) [] [] "a" "b"
      (record { new_list = map some fork; changes = []; revs_to_discard = [] }) refl refl
      (omega arith) refl
