-- ===== src/LogicalDevice/MeterRemoval.antt =====
-- The flows that go with a meter (`getUpdatedFlowsAfterDeletebyMeterID` and `meterDelete` of
-- rw_core/core/logical_device_agent.go).
use vol_2619_voltha_go.Prelude.{
  ℕ, zero, suc, Bool, true, false, none, some, List, [], ◌∷◌, ◌||◌, ◌≡◌, refl, ◌∙◌, get_elem?,
  remove_at, length, any, reject, if◌then◌else◌, ap, sym, reject-none, subst,
}
use vol_2619_voltha_go.Status.{Result, ok, err, ◌▸◌, ▸-none}
use vol_2619_voltha_go.LogicalDevice.{
  Tables, Agent, Surroundings, stored, update_logical_device, update_logical_device_flows,
  update_logical_device_meters,
}
use vol_2619_voltha_go.Openflow.{Messages, Meter, MeterMod, Flow, FlowLib}
use vol_2619_voltha_go.LogicalDevice.Meters.{
  remove_meter, meter_delete, without_meter, save_flows_if, uses_meter, is_used_at, delete_down,
  get_updated_flows_after_delete_by_meter_id,
}

-- The first member of a list kept in front of a loop's result, or dropped.
abbrev kept {ℓ} : {A : Type ℓ} → Bool → A → Bool × List A → Bool × List A
kept used x r = if used then (true, r.1) else (r.0, x ∷ r.1)

kept-if {ℓ} :
    {A : Type ℓ} (b used : Bool) (x : A) (p' q' : Bool × List A) {p q : Bool × List A}
    → p ≡ kept used x p'
    → q ≡ kept used x q'
    → (if b then (true, p.1) else q) ≡ kept used x (if b then (true, p'.1) else q')
kept-if true true x p' q' e e' = cc
kept-if true false x p' q' e e' = cc
kept-if false used x p' q' e e' = e'

module _ {M : Messages} (L : FlowLib M) (meter_id : ℕ) where
  delete_down-cons :
      (n : ℕ) (f : Flow M) (fs : List (Flow M))
      → delete_down L meter_id (suc n) (f ∷ fs)
        ≡ kept (uses_meter L meter_id f) f (delete_down L meter_id n fs)
  unfolding delete_down remove_at
  delete_down-cons zero f fs = refl
  delete_down-cons (suc n) f fs =
      kept-if (is_used_at L meter_id (get_elem? fs n)) (uses_meter L meter_id f) f
        (delete_down L meter_id n (remove_at n fs)) (delete_down L meter_id n fs)
        (delete_down-cons n f (remove_at n fs)) (delete_down-cons n f fs)

  kept_all :
      (used : Bool) (f : Flow M) (fs : List (Flow M)) {r : Bool × List (Flow M)}
      → r ≡ (any (uses_meter L meter_id) fs, reject (uses_meter L meter_id) fs)
      → kept used f r ≡ (
        used || any (uses_meter L meter_id) fs,
        (if used then reject (uses_meter L meter_id) fs else f ∷ reject (uses_meter L meter_id) fs),
      )
  kept_all true f fs e = cc
  kept_all false f fs e = cc

  -- The loop over the indexes, from the last one down and in a slice that shrinks, drops the flows of
  -- the meter and keeps the others in their order, and tells whether there was one.
  pub get_updated_flows_lem :
      (flows : List (Flow M))
      → get_updated_flows_after_delete_by_meter_id L flows meter_id
        ≡ (any (uses_meter L meter_id) flows, reject (uses_meter L meter_id) flows)
  unfolding get_updated_flows_after_delete_by_meter_id reject delete_down
  get_updated_flows_lem [] = refl
  get_updated_flows_lem (f ∷ fs) =
      delete_down-cons (length fs) f fs
      ∙ kept_all (uses_meter L meter_id f) f fs (get_updated_flows_lem fs)

module _ {M : Messages} (L : FlowLib M) (E : Surroundings M) where
  pub update-good :
      (ld : Tables M) (a : Agent M)
      → (update_logical_device E ld a).1 ≡ none
      → (update_logical_device E ld a).0 ≡ record a { logical_device = ld }
  unfolding update_logical_device
  update-good ld a h = at (E.update ld) h
    where
      at :
          (r : Result Bool)
          → (stored r ld a).1 ≡ none
          → (stored r ld a).0 ≡ record a { logical_device = ld }
      at (err c) h = cc
      at (ok false) h = cc
      at (ok true) h = refl

  save_flows_if-good :
      (b : Bool) (fs : List (Flow M)) (a : Agent M)
      → (save_flows_if E (b, fs) a).1 ≡ none
      → (b ≡ false → fs ≡ a.logical_device.flows)
      → (save_flows_if E (b, fs) a).0.logical_device ≡ record (a.logical_device) { flows = fs }
  unfolding update_logical_device_flows
  save_flows_if-good true fs a h same = ap (λ s. s.logical_device) (update-good _ a h)
  save_flows_if-good false fs a h same = rw (same refl)

  meters_saved :
      (a : Agent M) (ms : List (Meter M)) (b : Bool) (fs : List (Flow M))
      → (b ≡ false → fs ≡ a.logical_device.flows)
      → (update_logical_device_meters E ms a ▸ save_flows_if E (b, fs)).1 ≡ none
      → (update_logical_device_meters E ms a ▸ save_flows_if E (b, fs)).0.logical_device
        ≡ record (a.logical_device) { meters = ms; flows = fs }
  unfolding update_logical_device_meters
  meters_saved a ms b fs same h =
      let good = ▸-none (update_logical_device_meters E ms a) (save_flows_if E (b, fs)) h in
      let saved = update-good (record (a.logical_device) { meters = ms }) a good.0 in
      ap (λ s. s.logical_device) good.2
      ∙ save_flows_if-good b fs _ good.1
          (λ e. same e ∙ sym (ap (λ s. s.logical_device.flows) saved))
      ∙ ap (λ s. record (s.logical_device) { flows = fs }) saved

  without_meter-good :
      (m : MeterMod M.Bands) (a : Agent M) (ms : List (Meter M))
      → (without_meter L E m a (some ms)).1 ≡ none
      → (without_meter L E m a (some ms)).0.logical_device ≡ record (a.logical_device) {
        meters = ms;
        flows = reject (uses_meter L m.meter_id) a.logical_device.flows;
      }
  without_meter-good m a ms h =
      let used = uses_meter L m.meter_id in
      let fs = a.logical_device.flows in
      subst
        (λ r.
          (update_logical_device_meters E ms a ▸ save_flows_if E r).1 ≡ none
          → (update_logical_device_meters E ms a ▸ save_flows_if E r).0.logical_device
            ≡ record (a.logical_device) { meters = ms; flows = reject used fs })
        (sym (get_updated_flows_lem L m.meter_id fs))
        (meters_saved a ms (any used fs) (reject used fs) (reject-none used fs)) h

  -- The deletion of a meter that is in the table, if it returns no error, leaves the meters without
  -- it, and without the flows that use it; the other flows, the other meters and the groups are as
  -- before.
  pub meter_delete_lem :
      (m : MeterMod M.Bands) (a : Agent M) (ms : List (Meter M))
      → remove_meter m.meter_id a.logical_device.meters ≡ some ms
      → (meter_delete L E m a).1 ≡ none
      → (meter_delete L E m a).0.logical_device ≡ record (a.logical_device) {
        meters = ms;
        flows = reject (uses_meter L m.meter_id) a.logical_device.flows;
      }
  unfolding meter_delete
  meter_delete_lem m a ms e =
      subst
        (λ o.
          (without_meter L E m a o).1 ≡ none
          → (without_meter L E m a o).0.logical_device ≡ record (a.logical_device) {
            meters = ms;
            flows = reject (uses_meter L m.meter_id) a.logical_device.flows;
          })
        (sym e) (without_meter-good m a ms)

  pub meter_delete-none :
      (m : MeterMod M.Bands) (a : Agent M)
      → remove_meter m.meter_id a.logical_device.meters ≡ none
      → (meter_delete L E m a).0 ≡ a
  unfolding meter_delete
  meter_delete-none m a e = subst (λ o. (without_meter L E m a o).0 ≡ a) (sym e) refl
