-- ===== src/Tests/DeviceFlows.antt =====
-- Flows and groups that are pairs of a number and a content, the first of which identifies them, and a
-- device with one flow (rw_core/core/device_agent.go).
use mathlib.Core.Option.{none-ne-some}
use vol_2619_voltha_go.Prelude.{
  ℕ, suc, Bool, true, false, Option, none, some, List, [], ◌∷◌, ◌≡◌, refl, ap, ◌==◌, ==_iff, ◌&&◌,
  ◌||◌, length, set_at, reject, subst, some-injective, if◌then◌else◌, get_elem?, any, arith,
}
use vol_2619_voltha_go.DeviceAgent.{ConnectStatus}
use vol_2619_voltha_go.Transitions.{AdminState, OperStatus}
use vol_2619_voltha_go.Status.{ok}
use vol_2619_voltha_go.Response.{wait_for_nil_or_error_responses, receive_all, receive}
use vol_2619_voltha_go.DeviceFlows.{
  FlowUtils, FlowDevice, FlowAgent, Surroundings, update_flows_bulk, serve, add,
  add_flows_and_groups, add_flows_and_groups_to_adapter, flows_to_update_to_delete,
  groups_to_update_to_delete, send_and_store, is_unchanged, update_flows_and_groups,
  update_flows_and_groups_to_adapter,
}
use vol_2619_voltha_go.DeviceFlows.Changes.{
  Finder, to_update_to_delete, delete_without_preserving_order, matched, unmatched,
}
use vol_2619_voltha_go.DeviceFlows.Compare.{FinderLaws}
use vol_2619_voltha_go.DeviceFlows.InStep.{FlowUtilsLaws, InStep, flow_table, serve-InStep}
use vol_2619_voltha_go.DeviceFlows.Divergence.{update-flow_table}

abbrev Entry : Type 0
Entry = ℕ × ℕ

abbrev next : Option (ℕ × Entry) → Option (ℕ × Entry)
next none = none
next (some p) = some (suc p.0, p.1)

abbrev find : List Entry → Entry → Option (ℕ × Entry)
find [] x = none
find (y ∷ ys) x = let rest = next (find ys x) in if x.0 == y.0 then some (0, y) else rest

abbrev finder : Finder Entry
finder = record { find = find; equal = λ x y. x.0 == y.0 && x.1 == y.1 }

next-none : (o : Option (ℕ × Entry)) → next o ≡ none → o ≡ none
next-none none h = refl
next-none (some a) h = cc

none_found : (xs : List Entry) (x : Entry) → find xs x ≡ none → any (λ y. x.0 == y.0) xs ≡ false
none_found [] x h = refl
none_found (y ∷ ys) x h = at (x.0 == y.0) h (none_found ys x)
  where
    at :
        (b : Bool)
        → if◌then◌else◌ {A = Option (ℕ × Entry)} b (some (0, y)) (next (find ys x)) ≡ none
        → (find ys x ≡ none → any (λ y. x.0 == y.0) ys ≡ false)
        → (b || any (λ y. x.0 == y.0) ys) ≡ false
    at true h rec = cc
    at false h rec = rec (next-none _ h)

some_found :
    (xs : List Entry) (x : Entry) (i : ℕ) (y : Entry)
    → find xs x ≡ some (i, y)
    → (get_elem? xs i ≡ some y) × (any (λ y. x.0 == y.0) xs ≡ true)
some_found [] x i y h = cc
some_found (z ∷ zs) x i y h = at (x.0 == z.0) (find zs x) h (some_found zs x)
  where
    at :
        (b : Bool) (o : Option (ℕ × Entry))
        → if◌then◌else◌ {A = Option (ℕ × Entry)} b (some (0, z)) (next o) ≡ some (i, y)
        → ((j : ℕ) (w : Entry)
            → o ≡ some (j, w)
            → (get_elem? zs j ≡ some w) × (any (λ y. x.0 == y.0) zs ≡ true))
        → (get_elem? (z ∷ zs) i ≡ some y) × ((b || any (λ y. x.0 == y.0) zs) ≡ true)
    at true o h rec =
        (subst (λ p. get_elem? (z ∷ zs) p.0 ≡ some p.1) (some-injective _ _ h) refl, refl)
    at false none h rec = cc
    at false (some (j, w)) h rec =
        let (e, e') = rec j w refl in
        (subst (λ p. get_elem? (z ∷ zs) p.0 ≡ some p.1) (some-injective _ _ h) e, e')

and_true : (a b : Bool) → (a && b) ≡ true → (a ≡ true) × (b ≡ true)
and_true true b h = (refl, h)
and_true false b h = cc

pair-eq : {x y : Entry} → x.0 ≡ y.0 → x.1 ≡ y.1 → x ≡ y
pair-eq {x} {y} e e' = subst (λ n. x ≡ (n, y.1)) e (subst (λ m. x ≡ (x.0, m)) e' refl)

matches_comm : (x y : Entry) → (x.0 == y.0) ≡ (y.0 == x.0)
matches_comm x y = ground arith

abbrev laws : FinderLaws finder
laws = record {
  matches = λ x y. x.0 == y.0;
  matches_refl = λ x. (==_iff x.0 x.0).1 refl;
  matches_comm = matches_comm;
  find_none = none_found;
  find_some = some_found;
  equal_eq = λ x y h.
      let (e, e') = and_true (x.0 == y.0) (x.1 == y.1) h in
      pair-eq ((==_iff x.0 y.0).0 e) ((==_iff x.1 y.1).0 e');
}

abbrev utils : FlowUtils
utils = record {
  Flow = Entry;
  Group = Entry;
  Metadata = Unit;
  flow_finder = finder;
  group_finder = finder;
  deep_equal_flows = λ fs gs. false;
  deep_equal_groups = λ fs gs. false;
}

abbrev utils_laws : FlowUtilsLaws utils
utils_laws = record { flow_laws = laws; group_laws = laws }

abbrev device : FlowDevice utils
device = record {
  device = record {
    id = "d";
    adapter = "olt";
    admin_state = AdminState.enabled;
    oper_status = OperStatus.active;
    connect_status = ConnectStatus.reachable;
    parent_id = "";
    reason = "";
    ports = [];
  };
  flows = (1, 10) ∷ (2, 20) ∷ [];
  groups = (7, 70) ∷ [];
}

-- An agent that has sent its flows in bulk.
abbrev agent : FlowAgent utils
agent = record {
  device = device;
  sent = update_flows_bulk device device.flows device.groups none ∷ [];
}

abbrev surroundings : Bool → Surroundings utils
surroundings incremental = record {
  accepts_add_remove_flow_updates = some incremental;
  answer = λ message. some (record { time = 3; error_of = none });
  update = λ d. ok true;
  default_timeout = 10;
}

abbrev in_step : InStep utils utils_laws agent
in_step = record {
  same_flows = refl;
  same_groups = refl;
  apart_flows = ((refl, tt), (tt, tt));
  apart_groups = (tt, tt);
}

-- A flow that is already there, one that changes, and a new one.
abbrev new_flows : List Entry
new_flows = (1, 10) ∷ (2, 21) ∷ (3, 30) ∷ []

serve-InStep_example :
    InStep utils utils_laws (serve utils (surroundings true) (add new_flows [] none) agent).0
unfolding serve add_flows_and_groups add_flows_and_groups_to_adapter flows_to_update_to_delete
    groups_to_update_to_delete to_update_to_delete send_and_store wait_for_nil_or_error_responses
    receive_all receive delete_without_preserving_order set_at
serve-InStep_example =
    serve-InStep utils utils_laws (surroundings true) agent in_step (add new_flows [] none)
      (((refl, (refl, tt)), ((refl, tt), (tt, tt))), tt) (λ e. refl) (none-ne-some _)

update-flow_table_example :
    flow_table utils utils_laws
      (update_flows_and_groups utils (surroundings true) new_flows [] none agent).0.sent
    ≡ (3, 30) ∷ []
unfolding update_flows_and_groups update_flows_and_groups_to_adapter is_unchanged send_and_store
    matched unmatched reject
update-flow_table_example =
    update-flow_table utils utils_laws (surroundings true) agent in_step new_flows [] none refl
      (λ e. omega (arith, ap length e))
