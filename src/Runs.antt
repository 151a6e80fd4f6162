-- ===== src/Runs.antt =====
-- Concrete runs of every part, and the theorems at concrete inputs.
mod Sets
mod Codec
mod Sessions
mod Links
mod Composites
mod Connections
