-- ===== src/Examples.antt =====
-- The code on concrete inputs.
mod World
mod Tree
mod RevWalk
mod Downstack
mod Metadata
mod Persist
mod Pattern
mod Opt
mod Sound
