-- ===== src/DeviceFlows/Divergence.antt =====
-- The incremental update of the flows of a device (rw_core/core/device_agent.go).
use vol_2619_voltha_go.Prelude.{
  Bool, true, false, Option, some, List, ◌∷◌, ◌++◌, ◌≡◌, ◌≢◌, refl, ap, ◌∙◌, ◌⊎◌, inl, inr,
  is_empty, ◌&&◌, if◌then◌else◌, subst, sym,
}
use vol_2619_voltha_go.Status.{Result, ok, err}
use vol_2619_voltha_go.Response.{Arrival}
use vol_2619_voltha_go.DeviceFlows.{
  FlowUtils, FlowDevice, FlowMessage, update_flows_incremental, FlowAgent, Surroundings,
  is_unchanged, stored, send_and_store, done_at_once, update_on, update_flows_and_groups_to_adapter,
  waited, update_flows_and_groups,
}
use vol_2619_voltha_go.DeviceFlows.Changes.{unmatched, matched}
use vol_2619_voltha_go.DeviceFlows.Compare.{changed}
use vol_2619_voltha_go.DeviceFlows.Outcome.{matched-changed}
use vol_2619_voltha_go.DeviceFlows.InStep.{FlowUtilsLaws, InStep, flow_table}

module _ (U : FlowUtils) (L : FlowUtilsLaws U) (E : Surroundings U) (a : FlowAgent U) where
  module _ (step : InStep U L a) (flows : List U.Flow) (groups : List U.Group)
      (m : Option U.Metadata) where
    abbrev Diverges : FlowAgent U → Type 0
    Diverges b =
        (b ≡ a)
        ⊎ (flow_table U L b.sent
            ≡ unmatched U.flow_finder flows a.device.flows
              ++ unmatched U.flow_finder a.device.flows flows)

    record Leads (x : FlowAgent U × Result (Option Arrival)) : Type 0 where
      leads : Diverges (waited U E x).0

    if-Leads :
        (b : Bool) (x y : FlowAgent U × Result (Option Arrival))
        → Leads x
        → Leads y
        → Leads (if b then x else y)
    if-Leads true x y h k = h
    if-Leads false x y h k = k

    send-Leads :
        (ga gr gu : List U.Group) (d : FlowDevice U)
        → Leads (
            send_and_store U E
              (update_flows_incremental a.device
                (unmatched U.flow_finder a.device.flows flows)
                (matched U.flow_finder flows a.device.flows)
                ga
                gr
                gu
                m)
              d
              a)
    unfolding send_and_store
    send-Leads ga gr gu d = at (E.update d)
      where
        sent :
            changed U.flow_finder L.flow_laws
              (matched U.flow_finder flows a.device.flows)
              (unmatched U.flow_finder a.device.flows flows)
              (flow_table U L a.sent)
            ≡ unmatched U.flow_finder flows a.device.flows
              ++ unmatched U.flow_finder a.device.flows flows
        sent =
            ap (changed U.flow_finder L.flow_laws _ _) step.same_flows
            ∙ matched-changed U.flow_finder L.flow_laws flows a.device.flows _ step.apart_flows

        message : FlowMessage U
        message =
            update_flows_incremental a.device (unmatched U.flow_finder a.device.flows flows)
              (matched U.flow_finder flows a.device.flows) ga gr gu m

        at :
            (r : Result Bool)
            → Leads (stored U r d (E.answer message) (record a { sent = message ∷ a.sent }))
        at (err c) = record { leads = inr sent }
        at (ok false) = record { leads = inr sent }
        at (ok true) = record { leads = inr sent }

    nothing : Leads (a, ok (done_at_once U))
    nothing = record { leads = inl refl }

    update-Leads :
        E.accepts_add_remove_flow_updates ≡ some true
        → Leads (update_flows_and_groups_to_adapter U E flows groups m a)
    unfolding update_flows_and_groups_to_adapter
    update-Leads incremental = if-Leads (is_empty flows && is_empty groups) _ _ nothing (
        if-Leads (is_unchanged U a.device flows groups) _ _ nothing (
          subst (λ o. Leads (update_on U E flows groups m a o)) (sym incremental)
            (if-Leads _ _ _ nothing (send-Leads _ _ _ _))))

    -- After an update that is sent to an adapter with incremental updates, an adapter that had
    -- the flows of the device has its flows that match none of the update, followed by the flows
    -- of the update that match none of the device; so it keeps what goes and loses what stays.
    pub update-flow_table :
        E.accepts_add_remove_flow_updates ≡ some true
        → (update_flows_and_groups U E flows groups m a).0.sent ≢ a.sent
        → flow_table U L (update_flows_and_groups U E flows groups m a).0.sent
          ≡ unmatched U.flow_finder flows a.device.flows
            ++ unmatched U.flow_finder a.device.flows flows
    unfolding update_flows_and_groups
    update-flow_table incremental sends = elim ((update-Leads incremental).leads) [
      | inl same ↦ elim (sends (ap (λ b. b.sent) same)) [ ]
      | inr e ↦ e
    ]
