-- ===== src/Catalog.antt =====
-- The channels of a filtered operator catalog (pkg/mirror/catalog/resolver.go): the head of a
-- channel, `mergeChannelHeads` and `highestVersionBundle`. The version of a bundle is a parameter,
-- with the comparison of the semver package; names are compared as Go compares strings.
pub mod Heads
use oc_mirror_operator.Base.{
  ℕ, String, Bool, true, false, Option, none, some, List, [], ◌∷◌, ◌++◌, ◌==◌, ◌&&◌, ◌||◌, not,
  if◌then◌else◌, contains, without, map,
}
use Prim.Native.String.{compare}
use text.Mathlib.Text.{is_lt}

-- `declcfg.ChannelEntry`
pub record ChannelEntry : Type 0 where
  pub name : String
  pub replaces : String
  pub skips : List String

-- the entry supersedes the bundle
abbrev pub supersedes : ChannelEntry → String → Bool
supersedes e bundle = (not (e.replaces == "") && e.replaces == bundle) || contains e.skips bundle

unfoldable pub superseded : List ChannelEntry → String → Bool
superseded [] bundle = false
superseded (e ∷ entries) bundle = supersedes e bundle || superseded entries bundle

-- the names of the entries that nothing in the channel supersedes
unfoldable pub heads_in : List ChannelEntry → List ChannelEntry → List String
heads_in channel [] = []
heads_in channel (e ∷ entries) =
    let rest = heads_in channel entries in if superseded channel e.name then rest else e.name ∷ rest

abbrev pub heads : List ChannelEntry → List String
heads channel = heads_in channel channel

-- the entry of the top bundle skips the other heads
abbrev pub skip_others : String → List String → ChannelEntry → ChannelEntry
skip_others top others e = if e.name == top then record e { skips = e.skips ++ others } else e

module _ {V : Type 0} (version_of : String → Option V) (gt : V → V → Bool) where
  abbrev pub wins : String → String → Option V → Option V → Bool
  wins candidate best (some sv) (some best_sv) = gt sv best_sv
  wins candidate best (some sv) none = true
  wins candidate best none (some best_sv) = false
  wins candidate best none none = is_lt (compare candidate best)

  unfoldable pub highest_from : String → List String → String
  highest_from best [] = best
  highest_from best (c ∷ candidates) =
      highest_from (if wins c best (version_of c) (version_of best) then c else best) candidates

  abbrev pub merged_heads : List ChannelEntry → List String → List ChannelEntry
  merged_heads entries [] = entries
  merged_heads entries (h ∷ []) = entries
  merged_heads entries (h ∷ h' ∷ hs) =
      let top = highest_from h (h' ∷ hs) in
      map (skip_others top (without top (h ∷ h' ∷ hs))) entries

  unfoldable pub merge_channel_heads : List ChannelEntry → List ChannelEntry
  merge_channel_heads entries = merged_heads entries (heads entries)
