-- ===== src/ImageState/Entry.antt =====
-- The entry type of pkg/mirror/imagestate/imagestate.go, its enumerations, and the tests of the
-- program on them. Times are numbers of nanoseconds, retry counts are not negative.
use oc_mirror_operator.Base.{ℕ, String, ◌≡◌, Bool, true, false, Option, ◌==◌, eq_iff, arith, ◌↔◌}
use oc_mirror_operator.Base.Dict.{Dict}

-- `State string`: the three values that the program writes, and any other text
pub data EntryState : Type 0 where
  state_mirrored state_pending state_failed : EntryState
  state_other : String → EntryState

-- `type ImageOrigin string`: the constants, the empty text, and any other text
pub data ImageOrigin : Type 0 where
  origin_release origin_operator origin_additional origin_helm origin_helm_chart : ImageOrigin
  origin_empty : ImageOrigin
  origin_other : String → ImageOrigin

-- Go's `==` on two states
abbrev pub state_eq : EntryState → EntryState → Bool
state_eq state_mirrored state_mirrored = true
state_eq state_pending state_pending = true
state_eq state_failed state_failed = true
state_eq (state_other s) (state_other t) = s == t
state_eq _ _ = false

-- Go's `==` on two origins
abbrev pub origin_eq : ImageOrigin → ImageOrigin → Bool
origin_eq origin_release origin_release = true
origin_eq origin_operator origin_operator = true
origin_eq origin_additional origin_additional = true
origin_eq origin_helm origin_helm = true
origin_eq origin_helm_chart origin_helm_chart = true
origin_eq origin_empty origin_empty = true
origin_eq (origin_other s) (origin_other t) = s == t
origin_eq _ _ = false

pub record ImageEntry : Type 0 where
  pub source : String
  pub state : EntryState
  pub last_error : String
  pub retry_count : ℕ
  pub origin : ImageOrigin
  pub entry_sig : String
  pub origin_ref : String
  pub catalog : String
  pub is_bundle_image : Bool
  pub permanently_failed : Bool
  pub next_retry_at : Option ℕ
  pub signature_verified : Bool
  pub source_digest : String

-- destination ↦ entry
abbrev pub ImageState : Type 0
ImageState = Dict ImageEntry

pub state_eq_iff : (s t : EntryState) → (state_eq s t ≡ true) ↔ (s ≡ t)
state_eq_iff (state_other s) (state_other t) = ground (arith, eq_iff s t)
state_eq_iff (state_other s) _ = ground arith
state_eq_iff state_mirrored t = ground arith
state_eq_iff state_pending t = ground arith
state_eq_iff state_failed t = ground arith
