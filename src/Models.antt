-- ===== src/Models.antt =====
-- models/: the objects that the resources send, and their wire format.
pub mod AccessRule
pub mod ServiceObject
pub mod NatPolicy
pub mod AddressObject
pub mod Interface
pub mod Dhcp
