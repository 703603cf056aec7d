-- ===== src/Manager/Resolve/Gate.antt =====
-- When an ImageSet is resolved (`shouldResolve`, `effectivePollInterval` and
-- `hasStaleCacheAnnotations` of pkg/mirror/manager/manager_resolve.go).
use oc_mirror_operator.Base.{
  ℕ, ◌-◌, ◌≤◌, ◌*◌, String, ◌≡◌, Bool, true, false, Option, none, some, [], ◌∷◌, ◌&&◌, ◌||◌, not,
  arith, if◌then◌else◌, ltb, leb, is_some, ◌<◌, ◌↔◌, refl, subst, Bool-cases, Option-cases, inl,
  inr,
}
use mathlib.Core.List.{Memᴰ}
use mathlib.Core.List.Memᴰ
use oc_mirror_operator.Base.Dict.{Dict, lookup}
use oc_mirror_operator.ImageState.Entry.{ImageState}
use text.Mathlib.Text.{starts_with}

abbrev pub minutes : ℕ
minutes = 60000000000

-- `spec.pollInterval`; a negative duration is refused as 0 is
abbrev pub effective_poll_interval : Option ℕ → Option ℕ
effective_poll_interval none = some (1440 * minutes)
effective_poll_interval (some d) =
    if leb d 0 then none else some (if ltb d (10 * minutes) then 10 * minutes else d)

-- the interval between two polls: a day if none is set, and ten minutes at least
pub data Interval : Option ℕ → ℕ → Type 0 where
  default : Interval none (1440 * minutes)
  as_set : (d : ℕ) → 10 * minutes ≤ d → Interval (some d) d
  raised : (d : ℕ) → 1 ≤ d → d < 10 * minutes → Interval (some d) (10 * minutes)

Interval-of :
    (poll_interval : Option ℕ) (interval : ℕ)
    → effective_poll_interval poll_interval ≡ some interval
    → Interval poll_interval interval
Interval-of none interval e =
    let eq : 1440 * minutes ≡ interval = ground (arith, e) in subst (Interval none) eq default
Interval-of (some d) interval e = elim (Bool-cases (leb d 0)) [
  | inl off ↦ absurd (ground (arith, e, off))
  | inr on ↦ elim (Bool-cases (ltb d (10 * minutes))) [
    | inl short ↦
        let eq : 10 * minutes ≡ interval = ground (arith, e, on, short) in
        subst (Interval (some d)) eq (raised d (ground (arith, on)) (ground (arith, short)))
    | inr long ↦
        let eq : d ≡ interval = ground (arith, e, on, long) in
        subst (Interval (some d)) eq (as_set d (ground (arith, long)))
  ]
]

Interval-effective :
    (poll_interval : Option ℕ) (interval : ℕ)
    → Interval poll_interval interval
    → effective_poll_interval poll_interval ≡ some interval
Interval-effective _ _ default = refl
Interval-effective _ _ (as_set d long) = ground (arith, long)
Interval-effective _ _ (raised d on short) = ground (arith, on, short)

-- what is read of the ImageSet; `none` for nil
pub record ImageSet : Type 0 where
  pub annotations : Dict String
  pub generation : ℕ
  pub observed_generation : ℕ
  pub last_successful_poll_time : Option ℕ

module _ (catalog_digest_prefix recollect_annotation : String) where
  abbrev pub is_stale : String → String → Bool
  is_stale key value = starts_with key catalog_digest_prefix && not (starts_with value "v5:")

  unfoldable pub has_stale_cache_annotations : Dict String → Bool
  has_stale_cache_annotations [] = false
  has_stale_cache_annotations ((key, value) ∷ annotations) =
      is_stale key value || has_stale_cache_annotations annotations

  abbrev pub poll_due : ℕ → Option ℕ → Option ℕ → Bool
  poll_due now none last = false
  poll_due now (some interval) none = true
  poll_due now (some interval) (some last) = leb interval (now - last)

  abbrev pub is_empty : ImageState → Bool
  is_empty [] = true
  is_empty (_ ∷ _) = false

  is_empty-nil : (current : ImageState) → is_empty current ≡ true → current ≡ []
  is_empty-nil [] h = refl
  is_empty-nil (e ∷ current) h = absurd (ground (arith, h))

  unfoldable pub should_resolve : ℕ → ImageSet → Option ℕ → ImageState → Bool
  should_resolve now image_set poll_interval current =
      if is_empty current
      then true
      else if is_some (lookup recollect_annotation image_set.annotations)
      then true
      else if ltb image_set.observed_generation image_set.generation
      then true
      else if has_stale_cache_annotations image_set.annotations
      then true
      else poll_due now (effective_poll_interval poll_interval) image_set.last_successful_poll_time

  -- the reasons to resolve an ImageSet
  pub data Reason (now : ℕ) (image_set : ImageSet) (poll_interval : Option ℕ) (current : ImageState)
      : Type 0 where
    nothing_collected : current ≡ [] → Reason now image_set poll_interval current
    recollect_asked :
        (value : String)
        → lookup recollect_annotation image_set.annotations ≡ some value
        → Reason now image_set poll_interval current
    spec_changed :
        image_set.observed_generation < image_set.generation
        → Reason now image_set poll_interval current
    cache_outdated :
        (key value : String)
        → Memᴰ (key, value) image_set.annotations
        → starts_with key catalog_digest_prefix ≡ true
        → starts_with value "v5:" ≡ false
        → Reason now image_set poll_interval current
    never_polled :
        (interval : ℕ)
        → Interval poll_interval interval
        → image_set.last_successful_poll_time ≡ none
        → Reason now image_set poll_interval current
    poll_expired :
        (interval last : ℕ)
        → Interval poll_interval interval
        → image_set.last_successful_poll_time ≡ some last
        → interval ≤ now - last
        → Reason now image_set poll_interval current

  has_stale_cache_annotations_found :
      (annotations : Dict String)
      → has_stale_cache_annotations annotations ≡ true
      → (key : String) × (value : String) × Memᴰ (key, value) annotations
        × (is_stale key value ≡ true)
  unfolding has_stale_cache_annotations
  has_stale_cache_annotations_found [] h = absurd (ground (arith, h))
  has_stale_cache_annotations_found ((key, value) ∷ annotations) h =
      elim (Bool-cases (is_stale key value)) [
        | inl stale ↦ (key, value, Memᴰ.head refl, stale)
        | inr fresh ↦
            let (k, v, m, stale) =
              has_stale_cache_annotations_found annotations (ground (arith, h, fresh)) in
            (k, v, Memᴰ.tail m, stale)
      ]

  found-has_stale_cache_annotations :
      (annotations : Dict String) (key value : String)
      → Memᴰ (key, value) annotations
      → is_stale key value ≡ true
      → has_stale_cache_annotations annotations ≡ true
  unfolding has_stale_cache_annotations
  found-has_stale_cache_annotations [] key value m stale = absurd (Memᴰ.not-nil m)
  found-has_stale_cache_annotations ((k, v) ∷ annotations) key value m stale =
      elim (Memᴰ.cases_cons m) [
        | inl e ↦
            let here : is_stale k v ≡ true = subst (λ x. is_stale x.0 x.1 ≡ true) e stale in
            ground (arith, here)
        | inr t ↦ ground (arith, found-has_stale_cache_annotations annotations key value t stale)
      ]

  due-Reason :
      (now : ℕ) (image_set : ImageSet) (poll_interval : Option ℕ) (current : ImageState)
      (o last : Option ℕ)
      → effective_poll_interval poll_interval ≡ o
      → image_set.last_successful_poll_time ≡ last
      → poll_due now o last ≡ true
      → Reason now image_set poll_interval current
  due-Reason now image_set poll_interval current none last e k h = absurd (ground (arith, h))
  due-Reason now image_set poll_interval current (some interval) none e k h =
      never_polled interval (Interval-of poll_interval interval e) k
  due-Reason now image_set poll_interval current (some interval) (some last) e k h =
      poll_expired interval last (Interval-of poll_interval interval e) k (ground (arith, h))

  Reason-should_resolve :
      (now : ℕ) (image_set : ImageSet) (poll_interval : Option ℕ) (current : ImageState)
      → Reason now image_set poll_interval current
      → should_resolve now image_set poll_interval current ≡ true
  unfolding should_resolve
  Reason-should_resolve now image_set poll_interval current (nothing_collected e) = rw e refl
  Reason-should_resolve now image_set poll_interval current (recollect_asked value e) =
      ground (arith, e)
  Reason-should_resolve now image_set poll_interval current (spec_changed e) = ground (arith, e)
  Reason-should_resolve now image_set poll_interval current (cache_outdated key value m old bad) =
      ground (
        arith,
        found-has_stale_cache_annotations image_set.annotations key value m
            (ground (arith, old, bad)),
      )
  Reason-should_resolve now image_set poll_interval current (never_polled interval i e) =
      ground (arith, e, Interval-effective poll_interval interval i)
  Reason-should_resolve now image_set poll_interval current (poll_expired interval last i e h) =
      ground (arith, e, h, Interval-effective poll_interval interval i)

  -- An ImageSet is resolved exactly when there is a reason to: nothing was collected yet, a
  -- recollect is asked for, its spec changed since it was last observed, the digest of a catalog was
  -- cached in an old format, or polling is on and the ImageSet was never polled or its poll interval
  -- (a day if none is set, and ten minutes at least) has passed since the last poll.
  pub should_resolve-Reason :
      (now : ℕ) (image_set : ImageSet) (poll_interval : Option ℕ) (current : ImageState)
      → (should_resolve now image_set poll_interval current ≡ true)
        ↔ Reason now image_set poll_interval current
  unfolding should_resolve
  should_resolve-Reason now image_set poll_interval current = (
    λ h. elim (Bool-cases (is_empty current)) [
      | inl empty ↦ nothing_collected (is_empty-nil current empty)
      | inr filled ↦ elim (Option-cases (lookup recollect_annotation image_set.annotations)) [
        | inr (value, asked) ↦ recollect_asked value asked
        | inl calm ↦ elim (Bool-cases (ltb image_set.observed_generation image_set.generation)) [
          | inl changed ↦ spec_changed (ground (arith, changed))
          | inr observed ↦ elim (Bool-cases (has_stale_cache_annotations image_set.annotations)) [
            | inl stale ↦
                let (key, value, m, old) =
                  has_stale_cache_annotations_found image_set.annotations stale in
                cache_outdated key value m (ground (arith, old)) (ground (arith, old))
            | inr fresh ↦
                due-Reason now image_set poll_interval current
                  (effective_poll_interval poll_interval) image_set.last_successful_poll_time refl
                  refl (ground (arith, h, filled, calm, observed, fresh))
          ]
        ]
      ]
    ],
    λ reason. Reason-should_resolve now image_set poll_interval current reason,
  )
