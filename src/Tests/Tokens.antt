-- ===== src/Tests/Tokens.antt =====
-- A cache token on a concrete digest.
use oc_mirror_operator.Base.{String, ◌≡◌, ◌≢◌, ◌↔◌, true, some, none}
use oc_mirror_operator.CacheToken.{
  operator_cache_value, operator_cache_hit, parse_operator_cache_digest, cache_token_roundtrip,
}

abbrev first : String
first = "sha256:1"

abbrev second : String
second = "sha256:2"

abbrev empty : String
empty = ""

cache_token_roundtrip_example :
    (first ≢ empty → parse_operator_cache_digest "v5:sha256:1" ≡ some first)
    × (first ≡ empty → parse_operator_cache_digest "v5:sha256:1" ≡ none)
    × (operator_cache_hit "v5:sha256:1" second ≡ true ↔ first ≡ second)
unfolding operator_cache_value
cache_token_roundtrip_example = cache_token_roundtrip first second
