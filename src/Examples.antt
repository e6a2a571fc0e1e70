-- ===== src/Examples.antt =====
-- Concrete runs of the theorems: a card check with one mandatory and one advisory gate.
mod Data
mod Decides
mod Enforces
mod Combines
mod Keeps
mod Reads
mod Resolves
mod Fails
mod Matches
mod Evaluates
mod Retrieves
mod Links
mod Admits
mod Authenticates
