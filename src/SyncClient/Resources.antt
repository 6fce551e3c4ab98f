-- ===== src/SyncClient/Resources.antt =====
-- The shims of _client.py that make the methods of the resources blocking calls, one module for
-- each class.
pub mod AddressObjects
pub mod AccessRules
pub mod Interfaces
pub mod NatPolicies
pub mod ServiceObjects
pub mod Dhcp
