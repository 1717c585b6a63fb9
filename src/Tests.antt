-- ===== src/Tests.antt =====
-- Concrete inputs: a platform in memory, runs of the definitions on it, and an instance of each
-- theorem that has hypotheses.
pub mod Memory
mod Pods
mod Nodes
mod Zones
mod Slices
mod Labels
mod Joining
mod Claims
mod Profiles
mod Mock
mod Domains
mod Controller
mod Usage
mod Gpus
mod Kwok
