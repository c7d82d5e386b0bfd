-- ===== src/Rooms.antt =====
-- Rooms (domain/rooms/models, infra/rooms).
pub mod RoomModels
pub mod RoomError
pub mod Models
pub mod ParticipantList
pub mod ConnectedRooms
pub mod Room
pub mod Service
