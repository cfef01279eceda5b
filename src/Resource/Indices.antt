-- ===== src/Resource/Indices.antt =====
-- What the secondary indices of the controller hold, and what adding and removing a device does
-- to them: `addIndices` and `removeIndices` of
-- src/linksmart.eu/lc/core/catalog/resource/controller.go.
pub mod Rids
pub mod Expiry
pub mod Sound
pub mod Filled
pub mod Start
