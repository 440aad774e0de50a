-- ===== src/Bim.antt =====
-- src/glip/bim/service.py: the queue of the semantic extraction of IFC sources.
pub mod Data
pub mod Queue
pub mod Extraction
pub mod Exclusive
pub mod Intact
pub mod Examples
