-- ===== src/Tests.antt =====
-- The theorems of the library on concrete inputs: two ImageSets, `is1` and `is2`, that share the
-- registry `reg`.
mod Data
mod Reports
mod Passes
mod Merges
mod Pods
mod Dispatches
mod Releases
mod Runs
mod Reloads
mod Plans
mod Catalogs
mod Removals
mod Tokens
