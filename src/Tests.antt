-- ===== src/Tests.antt =====
-- The theorems at concrete inputs, and runs of the models.
mod Agents
mod ApiKeys
mod Runs
mod Memories
mod Skills
mod Tools
mod Sources
mod Contexts
mod Strategies
mod Images
mod Registers
