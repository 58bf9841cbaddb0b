-- ===== src/Game.antt =====
-- The game on the server: server/Map.cpp, the systems that need the map, and server/World.cpp.
pub mod Stream
pub mod Quoted
pub mod Map
pub mod MapLaws
pub mod Movable
pub mod Movement
pub mod Friction
pub mod Events
pub mod Handlers
pub mod EventLaws
pub mod Readiness
pub mod Bounds
pub mod Collision
pub mod Contacts
pub mod BoundsLaws
pub mod Ranges
pub mod SolidTiles
pub mod CollisionLaws
pub mod EntityFile
pub mod MapFile
pub mod Digits
pub mod TileLines
pub mod Snapshot
pub mod SnapshotLaws
pub mod Player
pub mod PlayerLaws
pub mod Session
pub mod SessionLaws
pub mod JoinLaws
pub mod LeaveLaws
pub mod Program
mod Tests
