-- ===== src/Tests.antt =====
-- The tests of the repository that run on the models, and each theorem at an input.
mod Accepting
mod Indexing
mod OneClient
mod Packages
mod Parsing
mod Phases
mod Running
mod Served
mod Serving
mod Starting
mod Fleet
mod Program
