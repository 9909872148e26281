-- ===== src/Lib.antt =====
-- Verification of the core of VOLTHA, the rw-core of voltha-go. The core holds devices and the
-- logical devices that stand for them towards an OpenFlow controller. A request of the
-- controller changes the tables of a logical device; the flows are decomposed into flows for
-- the devices on the route between two logical ports; a device's life cycle is driven by its
-- states. Cores run in pairs, and a transaction in a key-value store and the ownership of
-- devices decide which core of a pair handles what.
--
-- Transitions (rw_core/core/device_state_transitions.go): the table of a device's transitions
-- and the choice of their handlers. Transitions.Priority and Transitions.Rows compare the
-- choice with its description.
--
-- Route (rw_core/route/device_route.go): the routes of a logical device as the struct
-- `DeviceRoutes`, with one function for each method; Route.Compute and Route.Add hold
-- `ComputeRoutes` and the additions of ports. Route.Hops, Route.Invariant, Route.Clearing and
-- Route.Reverse hold the proofs.
--
-- Ownership (rw_core/core/device_ownership.go): the tables of the devices that a core knows. A
-- request, a step of a monitoring routine and a stop are steps on this state; the store and the
-- managers are parameters. Ownership.Tables, Ownership.Timeout, Ownership.Invariant,
-- Ownership.Reservation and Ownership.Abandonment hold the proofs.
--
-- KvTransaction (rw_core/core/transaction.go) and Response (rw_core/utils/core_utils.go): the
-- reservation of a request in the store, over any interleaving of the store's events and of the
-- timer, and the wait for concurrent calls; with the proofs in KvTransaction.Watching and
-- Response.Waiting.
--
-- LogicalDevice (rw_core/core/logical_device_agent.go): the tables of flows, groups and meters,
-- in LogicalDevice.Flows, LogicalDevice.Groups and LogicalDevice.Meters, and the requests that
-- reach them in LogicalDevice.Requests. The agent's state is `Agent`: its tables and, for the
-- theorems, the rules that it has sent. An operation returns the agent that it leaves and the
-- error, none for nil, so that what is saved before an error stays saved. The decomposer, the
-- device manager and the data model are the record `LogicalDevice.Surroundings`; the proofs
-- stand in LogicalDevice.MeterRemoval, References, Keeping, FlowKeeping, Requested, Atomicity,
-- Counts and Retries.
--
-- FlowDecomposer (rw_core/flowdecomposition/flow_decomposer.go): FlowDecomposer.Trap for the
-- flows to the controller, FlowDecomposer.Directed for the others, and FlowDecomposer.Decompose
-- for the choice between them. The agent and the device manager are the record
-- `FlowDecomposer.Surroundings`; FlowDecomposer.RuleDevices, OnRoutes and Wildcard hold the
-- proofs.
--
-- Paths (rw_core/core/logical_device_agent.go too): the route that the agent gives for the two
-- ports of a flow, on the routes of Route, and its map of port numbers; Paths.HalfRoutes and
-- Paths.PortsNo hold the proofs.
--
-- DeviceAgent (rw_core/core/device_agent.go): the requests that change the administrative state
-- and the ports of a device, with the calls of its adapter, and in DeviceAgent.Updates the
-- updates of its status, its ports, its parent and its reason; DeviceAgent.Lifecycle,
-- DeviceAgent.Ports and DeviceAgent.History hold the proofs.
--
-- DeviceFlows and DeviceImages (rw_core/core/device_agent.go): the flows and groups of a
-- device, kept in the data model and sent to the adapter as a whole or as a change, and the
-- image downloads of a device, with the nil slices, nil entries and panics of the code. Their
-- operations return the stored device, the messages sent and the error. DeviceFlows.Changes
-- splits an update, DeviceFlows.Compare and Take hold the lemmas on it, and
-- DeviceFlows.Outcome, InStep and Divergence the proofs on what the adapter has been sent;
-- DeviceImages.NilEntries, Nothing and NoNil hold those on images. The search for flows and
-- groups is the record `FlowUtils` of DeviceFlows, with its laws in `FlowUtilsLaws`.
--
-- AdapterManager (rw_core/core/adapter_manager.go): the tables of adapters and of device types,
-- each operation on them, and the requests of AdapterManager.Requests, with the proofs in
-- AdapterManager.Knowledge and Requests.
--
-- DeviceManager (rw_core/core/device_manager.go): the map from devices to agents and the map of
-- root devices. DeviceManager.Lifecycle holds the loading, creation and end of agents,
-- DeviceManager.Dispatch the requests that go on to an agent, DeviceManager.Children those on
-- child devices, DeviceManager.Detection the detection of a child, and DeviceManager.Requests
-- all of them as steps. A call of an agent is a parameter, as is what the data model answers.
-- The proofs stand in DeviceManager.Agreement, Agreed, ChildAgreed, Served, Loading and
-- Answers.
--
-- Merge (db/model/merge.go): the comparison of two lists of revisions, the analysis of their
-- changes, and the merge of a node in Merge.Node; a revision is the record `RevisionOps`.
-- Merge.Keys and Merge.Removal hold the proofs.
--
-- Openflow holds the messages that LogicalDevice and FlowDecomposer share. The types of their
-- parts, which only the vendored flow utilities read, and the functions of these utilities are
-- parameters (`Messages`, `FlowLib`, `FlowUtils`); the records `FlowLibLaws` and
-- `FlowUtilsLaws` state what the theorems rely on of them. Status holds Go's errors and panics,
-- and Prelude the names, the lists and the maps that all parts use. Tests holds runs of the
-- code and instances of the theorems, in a module for each part.
--
-- An operation holds the lock of its part from its start to its end, so it is one step; what
-- runs concurrently is a sequence of steps or of events in any order. A Go map is an
-- association list under a test for equal keys, and a loop over a map follows the list: the
-- theorems hold for each order. Integers without a bound in the code's use are the native
-- numbers; the flow count of a meter wraps at 2 ^ 32, and a time-out is a number of its unit.
-- The loading of devices by the device manager runs on fuel: `load_device` and `load_relatives`
-- call each other, and the fuel is `levels`, two, since a child is loaded only by its root
-- device and loads no relatives of its own; DeviceManager.Loading shows that it is enough.
-- Every other loop is a recursion on the list that it goes through or on the index that it
-- counts down.
--
-- Not modelled: the start and stop of a device agent, its updates with the adapter's data and
-- of its performance metrics, and its packets and alarms; in the device manager the
-- reconciliation after the restart of an adapter, and the requests for flows, images and
-- metrics, which only go on to an agent; the logical device manager, and the logical ports and
-- the life cycle of the logical device agent; the adapter proxy and the request handlers of the
-- adapters and of the northbound interface, which marshal messages; the data model but for its
-- merge; start-up and configuration, logging, and the vendored libraries. The modelled parts
-- take what they call of these as parameters.
pub mod Prelude
pub mod Transitions
pub mod Status
pub mod Route
pub mod Ownership
pub mod Response
pub mod KvTransaction
pub mod Openflow
pub mod LogicalDevice
pub mod FlowDecomposer
pub mod Paths
pub mod DeviceAgent
pub mod DeviceFlows
pub mod DeviceImages
pub mod DeviceManager
pub mod Merge
pub mod AdapterManager
mod Tests
