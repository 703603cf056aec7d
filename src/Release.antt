-- ===== src/Release.antt =====
-- The update graph of a release channel (pkg/mirror/release/release.go): its types, and the choice
-- of nodes by version bounds. Semantic versions are a parameter: `parse_tolerant` and the tests of
-- the semver package on what it gives.
pub mod Path
pub mod Select
use oc_mirror_operator.Base.{ℕ, String, List}

pub record Node : Type 0 where
  pub version : String
  pub image : String

-- a Go `int`: `negsuc n` is -(n + 1)
pub data ℤ : Type 0 where
  pos negsuc : ℕ → ℤ

pub record Graph : Type 0 where
  pub nodes : List Node
  pub edges : List (List ℤ)
