-- ===== src/Resources.antt =====
-- resources/: the endpoints. What a resource needs of its model is an interface, `Base.Model`.
pub mod Normalize
pub mod Base
pub mod AddressObjects
pub mod ServiceObjects
pub mod AccessRules
pub mod NatPolicies
pub mod Interfaces
pub mod Dhcp
