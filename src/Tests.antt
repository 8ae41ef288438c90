-- ===== src/Tests.antt =====
-- Concrete inputs on which the theorems are used.
mod Segments
mod Chains
mod Index
mod Threads
mod Layout
mod Store
mod Cache
mod Volumes
mod Writers
mod Stores
mod Meta
