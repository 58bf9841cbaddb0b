-- ===== src/Ecs.antt =====
-- The entities of the game: their components, the entity manager, and the systems that hold them.
pub mod Bitmask
pub mod Components
pub mod State
pub mod Systems
pub mod Entities
pub mod Members
pub mod Membership
pub mod Furnish
pub mod NewEntity
pub mod History
pub mod ServerSystems
pub mod Parts
pub mod PartChange
pub mod StateSystem
pub mod StateLaws
pub mod Combat
pub mod Fight
pub mod CombatLaws
pub mod Presence
pub mod NoNull
pub mod Profiles
pub mod Timers
pub mod Timing
pub mod Messages
pub mod Subscriptions
pub mod Network
mod Tests
mod CombatTests
