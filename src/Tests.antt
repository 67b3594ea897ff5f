-- ===== src/Tests.antt =====
-- Tests: the theorems at concrete Sites, clusters and clients.
mod Fixtures
mod Owners
mod Conditions
mod Memory
mod Answers
mod SiteOnly
mod Passes
mod Clusterless
mod Taken
mod Objects
mod Runs
mod Texts
mod Processes
mod Copies
mod Several
mod Together
mod Keys
