-- ===== src/Openflow.antt =====
-- The OpenFlow messages that the logical device agent and the flow decomposer keep and pass on, and
-- the library of flow utilities that they call. That library is a parameter: its functions, and the
-- parts of the messages that only it reads, are the fields of `FlowLib`.
use vol_2619_voltha_go.Prelude.{
  ◌^◌, ◌-◌, ◌%◌, not, ◌==◌, ◌&&◌, ℕ, String, Bool, Option, List, ◌≡◌, All,
}

abbrev pub ofpp_controller : ℕ
ofpp_controller = 2 ^ 31 - 3

-- Whether an output port is the controller, whatever the highest bit is.
unfoldable pub is_controller_bound : ℕ → Bool
is_controller_bound out_port_no = not (out_port_no == 0) && out_port_no % 2 ^ 31 == ofpp_controller

pub data FlowCommand : Type 0 where
  ofpfc_add ofpfc_modify ofpfc_modify_strict ofpfc_delete ofpfc_delete_strict : FlowCommand
  ofpfc_other : FlowCommand

pub data GroupCommand : Type 0 where
  ofpgc_add ofpgc_modify ofpgc_delete ofpgc_other : GroupCommand

pub data MeterCommand : Type 0 where
  ofpmc_add ofpmc_modify ofpmc_delete ofpmc_other : MeterCommand

-- `body` stands for the match, the instructions and the timers.
pub record FlowStats (Body : Type 0) : Type 0 where
  pub id : ℕ
  pub table_id : ℕ
  pub priority : ℕ
  pub cookie : ℕ
  pub packet_count : ℕ
  pub byte_count : ℕ
  pub body : Body

pub record FlowMod (Body : Type 0) : Type 0 where
  pub command : FlowCommand
  pub flags : ℕ
  pub body : Body

pub record MeterConfig (Bands : Type 0) : Type 0 where
  pub meter_id : ℕ
  pub bands : Bands

-- The statistics of a meter: the count of its flows, an unsigned number of 32 bits, and the others.
pub record MeterEntry (Bands Stats : Type 0) : Type 0 where
  pub config : MeterConfig Bands
  pub flow_count : ℕ
  pub stats : Stats

pub record MeterMod (Bands : Type 0) : Type 0 where
  pub command : MeterCommand
  pub meter_id : ℕ
  pub bands : Bands

pub record GroupMod (Body : Type 0) : Type 0 where
  pub command : GroupCommand
  pub group_id : ℕ
  pub body : Body

-- The types of the messages' parts.
pub record Messages : Type 1 where
  pub Body : Type 0
  pub ModBody : Type 0
  pub Bands : Type 0
  pub MeterStats : Type 0
  pub GroupBody : Type 0
  pub Group : Type 0
  -- The flows and the groups of one device.
  pub FlowsAndGroups : Type 0

module _ (M : Messages) where
  abbrev pub Flow : Type 0
  Flow = FlowStats M.Body

  abbrev pub Mod : Type 0
  Mod = FlowMod M.ModBody

  abbrev pub Meter : Type 0
  Meter = MeterEntry M.Bands M.MeterStats

  abbrev pub Config : Type 0
  Config = MeterConfig M.Bands

  -- The rules for each device, in the order in which a loop goes through them.
  abbrev pub DeviceRules : Type 0
  DeviceRules = List (String × M.FlowsAndGroups)

  -- The functions of the flow utilities. `find_flows` gives the flow too that stands at the index
  -- that it finds, and `none` is for the index -1.
  pub record FlowLib : Type 0 where
    pub flow_stats_entry_from_flow_mod_message : FlowMod M.ModBody → FlowStats M.Body
    pub find_overlapping_flows :
        List (FlowStats M.Body) → FlowMod M.ModBody → List (FlowStats M.Body)
    pub find_flows : List (FlowStats M.Body) → FlowStats M.Body → Option (ℕ × FlowStats M.Body)
    pub flow_match : FlowStats M.Body → FlowStats M.Body → Bool
    pub flow_matches_mod : FlowStats M.Body → FlowMod M.ModBody → Bool
    pub deep_equal : FlowStats M.Body → FlowStats M.Body → Bool
    pub get_meter_id_from_flow : FlowStats M.Body → ℕ
    pub meter_entry_from_meter_mod : MeterMod M.Bands → MeterEntry M.Bands M.MeterStats
    pub find_group : List M.Group → ℕ → Option ℕ
    pub flows_delete_by_group_id : List (FlowStats M.Body) → ℕ → Bool × List (FlowStats M.Body)
    pub group_entry_from_group_mod : GroupMod M.GroupBody → M.Group
    pub flows_and_groups_of_group : M.Group → M.FlowsAndGroups

  -- What the theorems rely on: a new entry has the meter's number, and the deletion of a group's
  -- flows only drops flows.
  pub record FlowLibLaws (L : FlowLib) : Type 1 where
    pub entry_meter_id :
        (m : MeterMod M.Bands)
        → (FlowLib.meter_entry_from_meter_mod L m).config.meter_id ≡ m.meter_id
    pub keeps :
        (P : FlowStats M.Body → Type 0) (fs : List (FlowStats M.Body)) (group_id : ℕ)
        → All P fs
        → All P (FlowLib.flows_delete_by_group_id L fs group_id).1
