-- ===== src/DeviceManager/Answers.antt =====
-- The answers of requests to agents (rw_core/core/device_manager.go).
use mathlib.Core.Option.{none-ne-some}
use vol_2619_voltha_go.Prelude.{
  ℕ, String, str_eq, Bool, true, false, Option, none, some, List, [], ◌∷◌, ◌++◌, ◌||◌, ◌≡◌, refl,
  sym, ap, All, any, if◌then◌else◌, lookup, string_key, is_some, lookup-insert, ◌∙◌,
}
use vol_2619_voltha_go.Status.{Code, not_found, Run, returned, panicked, and_then, ReturnsWith}
use vol_2619_voltha_go.Transitions.{OperStatus}
use vol_2619_voltha_go.DeviceManager.{
  ManagedDevice, ManagedAgent, DeviceManager, AgentCall, put_port_state, Surroundings,
  get_device_agent, after_load, load, levels,
}
use vol_2619_voltha_go.DeviceManager.Agreement.{IsThere}
use vol_2619_voltha_go.DeviceManager.Dispatch.{
  called, call_if_found, on_agent, ◌▹◌, update_port_state,
}
use vol_2619_voltha_go.DeviceManager.Children.{Outcome, noted, child_called, call_all}

abbrev error_or_not_found : Option Code → Code
error_or_not_found none = not_found
error_or_not_found (some c) = c

module _ (E : Surroundings) where
  -- The error of an update of a port's state, from the agent that the look for it gives.
  abbrev pub port_state_error : (port_type port_no : ℕ) → OperStatus → Option ManagedAgent → Code
  port_state_error port_type port_no oper none = not_found
  port_state_error port_type port_no oper (some a) =
      error_or_not_found (E.agent_call (put_port_state port_type port_no oper) a.device).1

  -- A request to update the state of a port never succeeds. It panics just if the look for the
  -- agent does; otherwise it answers with the agent's own error, and with the error that the
  -- device is not found both when there is no agent and when the agent has updated the port.
  pub update_port_state_lem :
      (id : String) (port_type port_no : ℕ) (oper : OperStatus) (m : DeviceManager)
      → and_then (update_port_state E id port_type port_no oper m) (λ p. returned p.1)
        ≡ and_then
            (get_device_agent E id m)
            (λ p. returned (some (port_state_error port_type port_no oper p.1)))
  unfolding update_port_state on_agent ◌▹◌
  update_port_state_lem id port_type port_no oper m = at (get_device_agent E id m)
    where
      c : AgentCall
      c = put_port_state port_type port_no oper

      given : DeviceManager × Option ManagedAgent → Option Code
      given p = some (port_state_error port_type port_no oper p.1)

      after :
          (n : DeviceManager) (e : Option Code)
          → and_then ((returned (n, e)) ▹ (λ l. returned (l, some not_found))) (λ p. returned p.1)
            ≡ returned (some (error_or_not_found e))
      after n none = refl
      after n (some code) = refl

      at :
          (r : Run (DeviceManager × Option ManagedAgent))
          → and_then
              (and_then r (λ p. returned (call_if_found E c id p))
                ▹ (λ n. returned (n, some not_found)))
              (λ p. returned p.1)
            ≡ and_then r (λ p. returned (given p))
      at panicked = refl
      at (returned (n, none)) = refl
      at (returned (n, some a)) =
          after (called id a (E.agent_call c a.device) n).0 (E.agent_call c a.device).1

  found :
      (id : String) (a : ManagedAgent) (m : DeviceManager)
      → lookup id m.device_agents ≡ some a
      → get_device_agent E id m ≡ returned (m, some a)
  unfolding get_device_agent
  found id a m e =
      ap
        (λ (o : Option ManagedAgent). elim o [
          | none ↦ after_load id m (load E levels id m)
          | some b ↦ returned (m, some b)
        ])
        e

  noted_state : (o : Outcome) (p : DeviceManager × Option Code) → (noted o p).0 ≡ p.0
  noted_state o (m, none) = refl
  noted_state o (m, some c) = refl

  -- Another agent stays where it is when a child is called.
  lookup-child_called :
      (c : AgentCall) (i k : String) (o : Outcome) (b : ManagedAgent) (m : DeviceManager)
      → str_eq i k ≡ false
      → lookup k (child_called E c i o (m, some b)).0.device_agents ≡ lookup k m.device_agents
  lookup-child_called c i k o b m e =
      rw
        (
          noted_state o (called i b (E.agent_call c b.device) m),
          lookup-insert i k (record b { device = (E.agent_call c b.device).0 }) m.device_agents,
          e,
        )
        refl

  IsThere-child_called :
      (c : AgentCall) (i k : String) (o : Outcome) (b : ManagedAgent) (m : DeviceManager)
      → IsThere k m
      → IsThere k (child_called E c i o (m, some b)).0
  IsThere-child_called c i k o b m h =
      rw
        (
          noted_state o (called i b (E.agent_call c b.device) m),
          lookup-insert i k (record b { device = (E.agent_call c b.device).0 }) m.device_agents,
        )
        (at (str_eq i k))
    where
      at :
          (e : Bool)
          → is_some (
              if e
              then some (record b { device = (E.agent_call c b.device).0 })
              else lookup k m.device_agents)
            ≡ true
      at true = refl
      at false = h

  All-child_called :
      (c : AgentCall) (i : String) (o : Outcome) (b : ManagedAgent) (m : DeviceManager)
      (ks : List String)
      → All (λ k. IsThere k m) ks
      → All (λ k. IsThere k (child_called E c i o (m, some b)).0) ks
  All-child_called c i o b m [] h = tt
  All-child_called c i o b m (k ∷ ks) h =
      (IsThere-child_called c i k o b m h.0, All-child_called c i o b m ks h.1)

  last_taken :
      (c : AgentCall) (id : String) (s : DeviceManager × Outcome) (a : ManagedAgent)
      → (E.agent_call c a.device).1 ≡ none
      → ReturnsWith (λ p. p.1 ≡ none) (call_all E c [] (child_called E c id s.1 (s.0, some a)))
  unfolding call_all
  last_taken c id (m, o) a good = at (E.agent_call c a.device) good
    where
      choose : (b : Bool) → (if◌then◌else◌ {A = Option Code} b none none) ≡ none
      choose true = refl
      choose false = refl

      at :
          (x : ManagedDevice × Option Code)
          → x.1 ≡ none
          → ReturnsWith (λ p. p.1 ≡ none) (call_all E c [] (noted o (called id a x m)))
      at (d, none) l = choose o.all_done
      at (d, some code) l = elim (none-ne-some code (sym l)) [ ]

  -- A request to all the children of a device, to disable or to delete them, whose agents are all
  -- in the map, returns without an error whenever the agent of the last child takes the request
  -- and the last child is not among the others: even when requests to other children have failed.
  pub call_all-append :
      (c : AgentCall) (ids : List String) (id : String) (s : DeviceManager × Outcome)
      (a : ManagedAgent)
      → All (λ i. IsThere i s.0) ids
      → any (λ i. str_eq i id) ids ≡ false
      → lookup id s.0.device_agents ≡ some a
      → (E.agent_call c a.device).1 ≡ none
      → ReturnsWith (λ p. p.1 ≡ none) (call_all E c (ids ++ id ∷ []) s)
  unfolding call_all
  call_all-append c [] id s a there other here good =
      rw (found id a s.0 here) (last_taken c id s a good)
  call_all-append c (i ∷ ids) id s a there other here good =
      at (lookup i s.0.device_agents) refl there.0 (str_eq i id) refl other
        (λ t. call_all-append c ids id t a)
    where
      at :
          (o : Option ManagedAgent)
          → lookup i s.0.device_agents ≡ o
          → is_some o ≡ true
          → (b : Bool) → str_eq i id ≡ b
          → (b || any (λ j. str_eq j id) ids) ≡ false
          → ((t : DeviceManager × Outcome)
              → All (λ j. IsThere j t.0) ids
              → any (λ j. str_eq j id) ids ≡ false
              → lookup id t.0.device_agents ≡ some a
              → (E.agent_call c a.device).1 ≡ none
              → ReturnsWith (λ p. p.1 ≡ none) (call_all E c (ids ++ id ∷ []) t))
          → ReturnsWith (λ p. p.1 ≡ none) (call_all E c ((i ∷ ids) ++ id ∷ []) s)
      at none e k b f l rec = cc
      at (some x) e k true f l rec = cc
      at (some x) e k false f l rec = rw (found i x s.0 e) (
          rec (child_called E c i s.1 (s.0, some x)) (All-child_called c i s.1 x s.0 ids there.1) l
            (lookup-child_called c i id s.1 x s.0 f ∙ here) good)
