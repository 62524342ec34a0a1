-- ===== src/Objtypes.antt =====
-- internal/objtypes: what the reducers share. `encoding/json` is taken as a codec of the struct
-- that a reducer keeps; the reducers proper are functions on that struct.
pub mod Codec
pub mod Sets
pub mod Capped
pub mod Pr
pub mod Build
pub mod Deploy
pub mod Job
pub mod Chat
pub mod Field
mod Tests
