-- ===== src/Tests.antt =====
-- Runs of the modelled code and instances of the theorems, one module for each part.
mod Transitions
mod Route
mod Ownership
mod Transaction
mod LogicalDevice
mod FlowDecomposer
mod Paths
mod DeviceAgent
mod DeviceFlows
mod DeviceImages
mod DeviceManager
mod Merge
mod AdapterManager
