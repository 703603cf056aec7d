-- ===== src/Tests/Catalogs.antt =====
-- A channel with two heads, of which the second has the higher version.
use oc_mirror_operator.Base.{ℕ, String, Option, none, some, [], ◌==◌, if◌then◌else◌, Bool, ltb}
use oc_mirror_operator.Catalog.{ChannelEntry}

abbrev old_head : ChannelEntry
old_head = record { name = "op.v1"; replaces = ""; skips = [] }

abbrev new_head : ChannelEntry
new_head = record { name = "op.v2"; replaces = "op.v0"; skips = [] }

abbrev version_of : String → Option ℕ
version_of name = if name == "op.v1" then some 1 else if name == "op.v2" then some 2 else none

abbrev newer : ℕ → ℕ → Bool
newer a b = ltb b a
