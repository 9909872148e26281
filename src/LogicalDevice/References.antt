-- ===== src/LogicalDevice/References.antt =====
-- The meters that the flows of a table name, and what the changes of the two tables keep of them
-- (rw_core/core/logical_device_agent.go).
use vol_2619_voltha_go.Prelude.{
  ℕ, Bool, true, false, Option, none, some, List, [], ◌∷◌, ◌++◌, ◌||◌, ◌≡◌, refl, ◌==◌, All,
  All-append, All-set_at, All-remove_at, set_at, remove_at, All-map, All-reject, if◌then◌else◌,
  arith, is_some, map_option, some-injective, sym, ==_iff, reject,
}
use vol_2619_voltha_go.Status.{ok}
use vol_2619_voltha_go.Openflow.{
  Messages, MeterEntry, MeterConfig, Flow, Meter, FlowLib, FlowCommand,
}
use vol_2619_voltha_go.LogicalDevice.Meters.{
  meter_of, remove_meter, replace_meter, recounted, counted, count_in,
  update_flow_count_of_meter_stats, uses_meter,
}
use vol_2619_voltha_go.LogicalDevice.Flows.{get_meter_config, meter_configs, config_of}

differ : (j id k : ℕ) → (j == id) ≡ false → (id == k) ≡ true → (j == k) ≡ false
differ j id k d e = ground arith

module _ {B S : Type 0} where
  pub meter_of-append :
      (id : ℕ) (ms ms' : List (MeterEntry B S))
      → is_some (meter_of id ms) ≡ true
      → is_some (meter_of id (ms ++ ms')) ≡ true
  unfolding meter_of
  meter_of-append id [] ms' h = cc
  meter_of-append id (m ∷ ms) ms' h = at (id == m.config.meter_id) (meter_of-append id ms ms') h
    where
      at :
          (b : Bool)
          → (is_some (meter_of id ms) ≡ true → is_some (meter_of id (ms ++ ms')) ≡ true)
          → is_some (if b then some m.config else meter_of id ms) ≡ true
          → is_some (if b then some m.config else meter_of id (ms ++ ms')) ≡ true
      at true rec h = refl
      at false rec h = rec h

  -- The removal of a meter leaves the others.
  pub meter_of-remove :
      (id j : ℕ) (ms ms' : List (MeterEntry B S))
      → remove_meter id ms ≡ some ms'
      → (j == id) ≡ false
      → meter_of j ms' ≡ meter_of j ms
  unfolding meter_of remove_meter
  meter_of-remove id j [] ms' e d = cc
  meter_of-remove id j (m ∷ ms) ms' e d =
      at (id == m.config.meter_id) refl (remove_meter id ms)
        (λ rs r. meter_of-remove id j ms rs r d) e
    where
      at :
          (b : Bool)
          → (id == m.config.meter_id) ≡ b
          → (o : Option (List (MeterEntry B S)))
          → ((rs : List (MeterEntry B S)) → o ≡ some rs → meter_of j rs ≡ meter_of j ms)
          → (if b then some ms else map_option (λ rs. m ∷ rs) o) ≡ some ms'
          → meter_of j ms' ≡ meter_of j (m ∷ ms)
      at true same o rec e = rw (sym (some-injective _ _ e), differ j id m.config.meter_id d same)
      at false other none rec e = cc
      at false other (some rs) rec e = rw (sym (some-injective _ _ e), rec rs refl)

  -- A meter replaced by one of its number leaves the same numbers in the table.
  pub meter_of-replace :
      (id j : ℕ) (entry : MeterEntry B S) (ms ms' : List (MeterEntry B S))
      → entry.config.meter_id ≡ id
      → replace_meter id entry ms ≡ some ms'
      → is_some (meter_of j ms) ≡ true
      → is_some (meter_of j ms') ≡ true
  unfolding meter_of replace_meter
  meter_of-replace id j entry [] ms' h e k = cc
  meter_of-replace id j entry (m ∷ ms) ms' h e k =
      at (id == m.config.meter_id) refl (replace_meter id entry ms)
        (λ rs r. meter_of-replace id j entry ms rs h r) e k
    where
      at :
          (b : Bool)
          → (id == m.config.meter_id) ≡ b
          → (o : Option (List (MeterEntry B S)))
          → ((rs : List (MeterEntry B S))
              → o ≡ some rs
              → is_some (meter_of j ms) ≡ true
              → is_some (meter_of j rs) ≡ true)
          → (if b
              then some (record entry { flow_count = m.flow_count } ∷ ms)
              else map_option (λ rs. m ∷ rs) o)
            ≡ some ms'
          → is_some (meter_of j (m ∷ ms)) ≡ true
          → is_some (meter_of j ms') ≡ true
      at true same o rec e k =
          rw (sym (some-injective _ _ e)) (ground (arith, h, (==_iff id m.config.meter_id).0 same))
      at false other none rec e k = cc
      at false other (some rs) rec e k =
          rw (sym (some-injective _ _ e)) (ground (arith, rec rs refl))

  pub meter_of-recounted :
      (j : ℕ) (m : MeterEntry B S) (ms : List (MeterEntry B S)) (n : Option ℕ)
      → meter_of j (recounted m ms n).1 ≡ meter_of j (m ∷ ms)
  unfolding meter_of
  meter_of-recounted j m ms none = refl
  meter_of-recounted j m ms (some n) = refl

  pub meter_of-count :
      (command : FlowCommand) (id j : ℕ) (ms : List (MeterEntry B S))
      → meter_of j (count_in command id ms).1 ≡ meter_of j ms
  unfolding count_in meter_of
  meter_of-count command id j [] = refl
  meter_of-count command id j (m ∷ ms) =
      at (id == m.config.meter_id) (meter_of-count command id j ms)
    where
      at :
          (b : Bool)
          → meter_of j (count_in command id ms).1 ≡ meter_of j ms
          → meter_of j
              (if b
                then recounted m ms (counted command m.flow_count)
                else ((count_in command id ms).0, m ∷ (count_in command id ms).1)).1
            ≡ meter_of j (m ∷ ms)
      at true rec = meter_of-recounted j m ms (counted command m.flow_count)
      at false rec = rw rec

module _ {M : Messages} (L : FlowLib M) where
  -- A flow without a meter, or with one that is in the table.
  unfoldable pub is_referenced : List (Meter M) → Flow M → Bool
  is_referenced meters f =
      L.get_meter_id_from_flow f == 0 || is_some (meter_of (L.get_meter_id_from_flow f) meters)

  -- Every flow of the table finds its meter.
  unfoldable pub References : List (Meter M) → List (Flow M) → Type 0
  References meters flows = All (λ f. is_referenced meters f ≡ true) flows

  pub References-append :
      (ms : List (Meter M)) (fs : List (Flow M)) (ms' : List (Meter M))
      → References ms fs
      → References (ms ++ ms') fs
  unfolding References is_referenced
  References-append ms fs ms' h =
      All-map (λ f k. ground (arith, meter_of-append (L.get_meter_id_from_flow f) ms ms')) fs h

  -- A table that knows at least the meters of another one.
  pub References-mono :
      (ms ms' : List (Meter M)) (fs : List (Flow M))
      → ((j : ℕ) → is_some (meter_of j ms) ≡ true → is_some (meter_of j ms') ≡ true)
      → References ms fs
      → References ms' fs
  unfolding References is_referenced
  References-mono ms ms' fs more h =
      All-map (λ f k. ground (arith, more (L.get_meter_id_from_flow f))) fs h

  pub References-remove :
      (id : ℕ) (ms ms' : List (Meter M)) (fs : List (Flow M))
      → remove_meter id ms ≡ some ms'
      → References ms fs
      → References ms' (reject (uses_meter L id) fs)
  unfolding References is_referenced uses_meter
  References-remove id ms ms' fs e h =
      All-reject (λ f. is_referenced ms f ≡ true) (λ f. is_referenced ms' f ≡ true)
        (uses_meter L id)
        (λ f k other. ground (arith, meter_of-remove id (L.get_meter_id_from_flow f) ms ms' e)) fs h

  pub is_some-count :
      (command : FlowCommand) (ms : List (Meter M)) (f : Flow M) (j : ℕ)
      → is_some (meter_of j ms) ≡ true
      → is_some (meter_of j (update_flow_count_of_meter_stats L command ms f).1) ≡ true
  unfolding update_flow_count_of_meter_stats
  is_some-count command ms f j h = at (L.get_meter_id_from_flow f == 0)
    where
      at :
          (b : Bool)
          → is_some (
              meter_of j
                (if b then (false, ms) else count_in command (L.get_meter_id_from_flow f) ms).1)
            ≡ true
      at true = h
      at false = rw (meter_of-count command (L.get_meter_id_from_flow f) j ms) h

  -- The configuration of a flow's meter is found only if the meter is there.
  pub get_meter_config-referenced :
      (f : Flow M) (ms : List (Meter M)) (cs : List (MeterConfig M.Bands))
      → get_meter_config L (f ∷ []) ms ≡ ok cs
      → is_referenced ms f ≡ true
  unfolding get_meter_config meter_configs is_referenced
  get_meter_config-referenced f ms cs e =
      at (L.get_meter_id_from_flow f == 0) (meter_of (L.get_meter_id_from_flow f) ms) e
    where
      at :
          (b : Bool) (o : Option (MeterConfig M.Bands))
          → (if b || false
              then ok []
              else config_of (L.get_meter_id_from_flow f) o (meter_configs L ms []) [])
            ≡ ok cs
          → (b || is_some o) ≡ true
      at true o e = refl
      at false none e = cc
      at false (some c) e = refl

  module _ (ms : List (Meter M)) (fs : List (Flow M)) (h : References ms fs) where
    pub References-appended :
        (f : Flow M) → is_referenced ms f ≡ true → References ms (fs ++ f ∷ [])
    unfolding References
    References-appended f k = All-append (λ f. is_referenced ms f ≡ true) fs (f ∷ []) h (k, tt)

    pub References-set_at :
        (i : ℕ) (f : Flow M) → is_referenced ms f ≡ true → References ms (set_at i f fs)
    unfolding References
    References-set_at i f k = All-set_at (λ f. is_referenced ms f ≡ true) i f fs k h

    pub References-remove_at : (i : ℕ) → References ms (remove_at i fs)
    unfolding References
    References-remove_at i = All-remove_at (λ f. is_referenced ms f ≡ true) i fs h
