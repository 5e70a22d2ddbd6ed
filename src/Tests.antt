-- ===== src/Tests.antt =====
-- The tests: the theorems at concrete inputs.
mod Scanning
mod Rewriting
mod Pushing
mod Naming
mod Declaring
mod Splitting
mod Rebuilding
mod Gathering
mod Container
mod Committing
mod Sharing
mod Importing
mod Merging
