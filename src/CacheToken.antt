-- ===== src/CacheToken.antt =====
-- The cache tokens of operator catalogs (api/v1alpha1/resolution_sig.go), which the manager writes
-- to an annotation of an ImageSet and the ImageSet controller reads back.
use oc_mirror_operator.Base.{
  String, Bool, true, false, Option, none, some, ◌≡◌, ◌≢◌, ◌↔◌, ◌+◌, inl, inr, Bool-cases, ◌==◌,
  ◌&&◌, not, if◌then◌else◌, ltb, arith, eq_iff, ap, sym, ◌∙◌,
}
use Prim.Native.String.{slice, len, ◌++◌ as text_append}
use text.Mathlib.Text.{starts_with}
use text.Mathlib.TextPositions.{starts_with-append, slice-append_right, len-append}

abbrev operator_cache_version : String
operator_cache_version = "v5"

abbrev pub cache_prefix : String
cache_prefix = text_append operator_cache_version ":"

unfoldable pub operator_cache_value : String → String
operator_cache_value digest = text_append cache_prefix digest

unfoldable pub operator_cache_hit : String → String → Bool
unfolding operator_cache_value
operator_cache_hit cached digest = not (cached == "") && cached == operator_cache_value digest

-- `ok` is false for the empty digest; the text that comes with it is not used
unfoldable pub parse_operator_cache_digest : String → Option String
parse_operator_cache_digest value =
    let digest = slice value (len cache_prefix) (len value) in
    if not (starts_with value cache_prefix)
    then none
    else if digest == ""
    then none
    else some digest

-- `CatalogDigestAnnotationKey`: at most 48 bytes of the signature
unfoldable pub catalog_digest_annotation_key : String → String → String
catalog_digest_annotation_key prefix sig =
    text_append prefix (if ltb 48 (len sig) then slice sig 0 48 else sig)

digest_part :
    (digest : String)
    → slice (operator_cache_value digest) (len cache_prefix) (len (operator_cache_value digest))
      ≡ digest
unfolding operator_cache_value
digest_part digest =
    ap (slice (text_append cache_prefix digest) (len cache_prefix)) (len-append cache_prefix digest)
    ∙ slice-append_right cache_prefix digest

operator_cache_value_injective :
    (digest other : String)
    → operator_cache_value digest ≡ operator_cache_value other
    → digest ≡ other
operator_cache_value_injective digest other e =
    sym (digest_part digest) ∙ ap (λ v. slice v (len cache_prefix) (len v)) e ∙ digest_part other

operator_cache_value_some : (digest : String) → (operator_cache_value digest == "") ≡ false
unfolding operator_cache_value
operator_cache_value_some digest =
    let size : len (text_append cache_prefix digest) ≡ 3 + len digest =
      len-append cache_prefix digest in
    let none_of : (text_append cache_prefix digest == "") ≡ true → 3 + len digest ≡ 0 =
      λ y. sym size ∙ ap len ((eq_iff (text_append cache_prefix digest) "").0 y) in
    elim (Bool-cases (text_append cache_prefix digest == "")) [
      | inl y ↦ absurd (omega (arith, none_of y))
      | inr n ↦ n
    ]

-- The controller reads back exactly the digest that the manager wrote, and none where it wrote the
-- empty one; and the manager takes a token it wrote as a hit exactly for the digest it wrote.
pub cache_token_roundtrip :
    (digest other : String)
    → (digest ≢ "" → parse_operator_cache_digest (operator_cache_value digest) ≡ some digest)
      × (digest ≡ "" → parse_operator_cache_digest (operator_cache_value digest) ≡ none)
      × (operator_cache_hit (operator_cache_value digest) other ≡ true ↔ digest ≡ other)
unfolding parse_operator_cache_digest operator_cache_hit
cache_token_roundtrip digest other =
    let value = operator_cache_value digest in
    let starts : starts_with value cache_prefix ≡ true =
      unfold operator_cache_value in starts_with-append cache_prefix digest in
    let part = digest_part digest in
    let written = operator_cache_value_some digest in
    (
      λ some_digest. ground (arith, starts, part, eq_iff digest "", some_digest),
      λ no_digest. ground (arith, starts, part, eq_iff digest "", no_digest),
      (
        λ h.
            operator_cache_value_injective digest other
              (ground (arith, h, eq_iff value (operator_cache_value other))),
        λ same. ground (
          arith,
          written,
          eq_iff value (operator_cache_value other),
          ap operator_cache_value same,
        ),
      ),
    )
