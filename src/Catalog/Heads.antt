-- ===== src/Catalog/Heads.antt =====
-- A channel has one head after `mergeChannelHeads`.
use oc_mirror_operator.Base.{String, true, List, ◌≡◌, contains, map}
use oc_mirror_operator.Catalog.{ChannelEntry}

abbrev names_of : List ChannelEntry → List String
names_of entries = map (λ e. e.name) entries

-- at most one name, which is one of the old names
abbrev pub OneHead : List String → List String → Type 0
OneHead old new =
    ((a b : String) → contains new a ≡ true → contains new b ≡ true → a ≡ b)
    × ((a : String) → contains new a ≡ true → contains old a ≡ true)
    × ((a : String) → contains old a ≡ true → (b : String) × (contains new b ≡ true))
