-- ===== src/DeviceFlows/InStep.antt =====
-- A device agent and the tables of the adapter that follows its messages
-- (rw_core/core/device_agent.go).
use mathlib.Core.Bool.{true≢false}
use mathlib.Core.List.{map-id}
use vol_2619_voltha_go.Prelude.{
  Bool, true, false, Option, none, some, List, [], ◌∷◌, ◌≡◌, ◌≢◌, refl, sym, ap, ◌∙◌, map,
  find_first, if◌then◌else◌, is_empty, ◌&&◌,
}
use vol_2619_voltha_go.Status.{internal, failed_precondition, Result, ok, err}
use vol_2619_voltha_go.Response.{Arrival}
use vol_2619_voltha_go.DeviceFlows.{
  FlowUtils, FlowDevice, FlowMessage, update_flows_bulk, update_flows_incremental, FlowAgent,
  Surroundings, stored, done_at_once, send_and_store, flows_to_update_to_delete,
  groups_to_update_to_delete, is_unchanged, add_to, add_flows_and_groups_to_adapter, delete_from,
  delete_flows_and_groups_from_adapter, update_on, update_flows_and_groups_to_adapter, waited,
  add_flows_and_groups, delete_flows_and_groups, update_flows_and_groups, FlowRequest, add, delete,
  update, serve,
}
use vol_2619_voltha_go.DeviceFlows.Changes.{Update, to_update_to_delete, unmatched}
use vol_2619_voltha_go.DeviceFlows.Compare.{FinderLaws, Apart, changed}
use vol_2619_voltha_go.DeviceFlows.Outcome.{
  updated-changed, updated-Apart, unmatched-changed, unmatched-Apart,
}

-- What the theorems rely on for flows and for groups.
pub record FlowUtilsLaws (U : FlowUtils) : Type 0 where
  pub flow_laws : FinderLaws U.flow_finder
  pub group_laws : FinderLaws U.group_finder

module _ (U : FlowUtils) (L : FlowUtilsLaws U) where
  abbrev pub ApartFlows : List U.Flow → Type 0
  ApartFlows = Apart U.flow_finder L.flow_laws

  abbrev pub ApartGroups : List U.Group → Type 0
  ApartGroups = Apart U.group_finder L.group_laws

  -- The tables of an adapter that starts with none and follows the messages: a bulk update replaces
  -- them, and an incremental one first takes away what matches an entry to remove, then adds.
  abbrev pub flow_table : List (FlowMessage U) → List U.Flow
  flow_table [] = []
  flow_table (update_flows_bulk d flows groups m ∷ ms) = flows
  flow_table (update_flows_incremental d to_add to_remove ga gr gu m ∷ ms) =
      changed U.flow_finder L.flow_laws to_remove to_add (flow_table ms)

  -- The entry of the update that matches, if there is one.
  abbrev replaced : List U.Group → U.Group → U.Group
  replaced updates g = elim (find_first (L.group_laws.matches g) updates) [ none ↦ g | some h ↦ h ]

  abbrev pub group_table : List (FlowMessage U) → List U.Group
  group_table [] = []
  group_table (update_flows_bulk d flows groups m ∷ ms) = groups
  group_table (update_flows_incremental d to_add to_remove ga gr gu m ∷ ms) =
      map (replaced gu) (changed U.group_finder L.group_laws gr ga (group_table ms))

  -- The adapter has the flows and groups of the device, of which no two match.
  pub record InStep (a : FlowAgent U) : Type 0 where
    pub same_flows : flow_table a.sent ≡ a.device.flows
    pub same_groups : group_table a.sent ≡ a.device.groups
    pub apart_flows : ApartFlows a.device.flows
    pub apart_groups : ApartGroups a.device.groups

  -- The flows and the groups that a request brings do not match one another.
  abbrev pub AreApart : FlowRequest U → Type 0
  AreApart (add flows groups m) = ApartFlows flows × ApartGroups groups
  AreApart (delete flows groups m) = Unit
  AreApart (update flows groups m) = ApartFlows flows × ApartGroups groups

  abbrev pub is_update : FlowRequest U → Bool
  is_update (update _ _ _) = true
  is_update _ = false

  module _ (E : Surroundings U) (a : FlowAgent U) (step : InStep a) where
    record Keeps (m : FlowAgent U × Result (Option Arrival)) : Type 0 where
      keeps : (waited U E m).1 ≢ some internal → InStep (waited U E m).0

    still-Keeps : (r : Result (Option Arrival)) → Keeps (a, r)
    still-Keeps (ok response) = record { keeps = λ good. step }
    still-Keeps (err c) = record { keeps = λ good. step }

    if-Keeps :
        (b : Bool) (x y : FlowAgent U × Result (Option Arrival))
        → Keeps x
        → Keeps y
        → Keeps (if b then x else y)
    if-Keeps true x y h k = h
    if-Keeps false x y h k = k

    send-Keeps :
        (message : FlowMessage U) (d : FlowDevice U)
        → InStep (record { device = d; sent = message ∷ a.sent })
        → Keeps (send_and_store U E message d a)
    unfolding send_and_store
    send-Keeps message d h = at (E.update d)
      where
        at :
            (r : Result Bool)
            → Keeps (stored U r d (E.answer message) (record a { sent = message ∷ a.sent }))
        at (err c) = record { keeps = λ bad. elim (bad refl) [ ] }
        at (ok false) = record { keeps = λ bad. elim (bad refl) [ ] }
        at (ok true) = record { keeps = λ good. h }

    nothing : Keeps (a, ok (done_at_once U))
    nothing = still-Keeps (ok (done_at_once U))

    bulk-Keeps :
        (flows : List U.Flow) (groups : List U.Group) (m : Option U.Metadata)
        → ApartFlows flows
        → ApartGroups groups
        → Keeps (
            send_and_store U E
              (update_flows_bulk a.device flows groups m)
              (record (a.device) { flows = flows; groups = groups })
              a)
    bulk-Keeps flows groups m af ag =
        send-Keeps _ _
          (record { same_flows = refl; same_groups = refl; apart_flows = af; apart_groups = ag })

    incremental-Keeps :
        (fs to_add to_remove : List U.Flow) (gs ga gr : List U.Group) (m : Option U.Metadata)
        → fs ≡ changed U.flow_finder L.flow_laws to_remove to_add a.device.flows
        → gs ≡ changed U.group_finder L.group_laws gr ga a.device.groups
        → ApartFlows fs
        → ApartGroups gs
        → Keeps (
            send_and_store U E
              (update_flows_incremental a.device to_add to_remove ga gr [] m)
              (record (a.device) { flows = fs; groups = gs })
              a)
    incremental-Keeps fs to_add to_remove gs ga gr m ef eg af ag = send-Keeps _ _ (record {
      same_flows = ap (changed U.flow_finder L.flow_laws to_remove to_add) step.same_flows ∙ sym ef;
      same_groups =
          map-id _ ∙ ap (changed U.group_finder L.group_laws gr ga) step.same_groups ∙ sym eg;
      apart_flows = af;
      apart_groups = ag;
    })

    module _ (flows : List U.Flow) (groups : List U.Group) (m : Option U.Metadata) where
      add-Keeps :
          ApartFlows flows
          → ApartGroups groups
          → Keeps (add_flows_and_groups_to_adapter U E flows groups m a)
      unfolding add_flows_and_groups_to_adapter flows_to_update_to_delete groups_to_update_to_delete
      add-Keeps af ag = if-Keeps (is_empty flows && is_empty groups) _ _ nothing (
          if-Keeps
            (is_empty f.updated_all
              && is_empty f.to_delete
              && is_empty g.updated_all
              && is_empty g.to_delete)
            _ _ nothing (at E.accepts_add_remove_flow_updates))
        where
          f : Update U.Flow
          f = to_update_to_delete U.flow_finder flows a.device.flows

          g : Update U.Group
          g = to_update_to_delete U.group_finder groups a.device.groups

          still_f : ApartFlows f.updated_all
          still_f = updated-Apart U.flow_finder L.flow_laws flows a.device.flows af step.apart_flows

          still_g : ApartGroups g.updated_all
          still_g =
              updated-Apart U.group_finder L.group_laws groups a.device.groups ag step.apart_groups

          at : (o : Option Bool) → Keeps (add_to U E m a f g o)
          at none = still-Keeps (err failed_precondition)
          at (some false) =
              if-Keeps (is_unchanged U a.device f.updated_all g.updated_all) _ _ nothing
                (bulk-Keeps f.updated_all g.updated_all m still_f still_g)
          at (some true) =
              incremental-Keeps f.updated_all f.updated_new f.to_delete g.updated_all g.updated_new
                g.to_delete m
                (updated-changed U.flow_finder L.flow_laws flows a.device.flows step.apart_flows)
                (updated-changed U.group_finder L.group_laws groups a.device.groups
                  step.apart_groups)
                still_f still_g

      delete-Keeps : Keeps (delete_flows_and_groups_from_adapter U E flows groups m a)
      unfolding delete_flows_and_groups_from_adapter
      delete-Keeps = if-Keeps (is_empty flows && is_empty groups) _ _ nothing (
          if-Keeps (is_empty fs && is_empty flows && is_empty gs && is_empty groups) _ _ nothing
            (at E.accepts_add_remove_flow_updates))
        where
          fs : List U.Flow
          fs = unmatched U.flow_finder flows a.device.flows

          gs : List U.Group
          gs = unmatched U.group_finder groups a.device.groups

          still_f : ApartFlows fs
          still_f = unmatched-Apart U.flow_finder L.flow_laws flows a.device.flows step.apart_flows

          still_g : ApartGroups gs
          still_g =
              unmatched-Apart U.group_finder L.group_laws groups a.device.groups step.apart_groups

          at : (o : Option Bool) → Keeps (delete_from U E flows groups m a fs gs o)
          at none = still-Keeps (err failed_precondition)
          at (some false) =
              if-Keeps (is_unchanged U a.device fs gs) _ _ nothing
                (bulk-Keeps fs gs m still_f still_g)
          at (some true) =
              incremental-Keeps fs [] flows gs [] groups m
                (unmatched-changed U.flow_finder L.flow_laws flows a.device.flows)
                (unmatched-changed U.group_finder L.group_laws groups a.device.groups) still_f
                still_g

      update-Keeps :
          (E.accepts_add_remove_flow_updates ≡ some true → true ≡ false)
          → ApartFlows flows
          → ApartGroups groups
          → Keeps (update_flows_and_groups_to_adapter U E flows groups m a)
      unfolding update_flows_and_groups_to_adapter
      update-Keeps bulk af ag = if-Keeps (is_empty flows && is_empty groups) _ _ nothing (
          if-Keeps (is_unchanged U a.device flows groups) _ _ nothing
            (at E.accepts_add_remove_flow_updates bulk))
        where
          at :
              (o : Option Bool)
              → (o ≡ some true → true ≡ false)
              → Keeps (update_on U E flows groups m a o)
          at none bulk = still-Keeps (err failed_precondition)
          at (some false) bulk = bulk-Keeps flows groups none af ag
          at (some true) bulk = elim (true≢false (bulk refl)) [ ]

    -- When an adapter that follows the messages of the agent has the flows and groups of the
    -- device, of which no two match, so it has after an addition or a deletion, of either kind of
    -- adapter, and after an update that is sent in bulk, unless the answer is the error of a
    -- device that could not be stored. It holds for what a request brings of which no two match,
    -- whatever the adapter and the data model answer.
    pub serve-InStep :
        (r : FlowRequest U)
        → AreApart r
        → (E.accepts_add_remove_flow_updates ≡ some true → is_update r ≡ false)
        → (serve U E r a).1 ≢ some internal
        → InStep (serve U E r a).0
    unfolding serve add_flows_and_groups delete_flows_and_groups update_flows_and_groups
    serve-InStep (add flows groups m) apart bulk = (add-Keeps flows groups m apart.0 apart.1).keeps
    serve-InStep (delete flows groups m) apart bulk = (delete-Keeps flows groups m).keeps
    serve-InStep (update flows groups m) apart bulk =
        (update-Keeps flows groups m bulk apart.0 apart.1).keeps
