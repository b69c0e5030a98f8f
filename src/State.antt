-- ===== src/State.antt =====
-- tattle/state.py
pub mod Node
pub mod Manager
pub mod Handlers
pub mod Shape
pub mod Tails
pub mod Changes
pub mod Knowledge
pub mod Accepting
pub mod Entering
pub mod Refinement
pub mod Forgetting
pub mod Runs
pub mod Rumors
pub mod Refutation
pub mod Announcing
pub mod Telling
pub mod Keeping
pub mod Repeating
pub mod Returning
