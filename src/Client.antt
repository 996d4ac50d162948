-- ===== src/Client.antt =====
-- The game client's side of the wire (ClientProject): Network.cpp receives what the field server sends,
-- and Scene/FieldScene.cpp keeps the actors that it tells of.
pub mod World
pub mod Scene
pub mod Network
mod Tests
