-- ===== src/Field/Update.antt =====
-- fieldUpdate (FieldServer/FieldServer.cpp): one frame of a field. The players move and hit, then
-- change their sectors, then the monsters do, and items that have lain too long go away.
pub mod Drops
pub mod Visibility
pub mod Hits
pub mod Passes
pub mod Frame
pub mod Tests
