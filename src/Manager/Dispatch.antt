-- ===== src/Manager/Dispatch.antt =====
-- Phase E of `reconcile` (pkg/mirror/manager/manager.go): the collected images are given to worker
-- pods in batches while fewer pods than the concurrency limit are active. Starting a pod is a
-- parameter, which answers with the pod's name or, on an error, with nothing.
use oc_mirror_operator.Base.{
  ap, ℕ, zero, suc, ◌≤◌, String, ◌≡◌, refl, Option, none, some, List, [], ◌∷◌, arith, if◌then◌else◌,
  Bool-cases, inl, inr, ltb, length, take, drop, contains, Unique, length-Unique, text-cases,
  if_both, ◌==◌, ◌||◌, true,
}
use oc_mirror_operator.Base.Dict.{Dict, insert}
use oc_mirror_operator.Manager.State.{BatchItem}

-- the variables of the loop
pub record Dispatch (W : Type 0) : Type 0 where
  pub in_progress : Dict String
  pub active_pods : List String
  pub world : W

abbrev pub add_pod : String → List String → List String
add_pod pod_name pods = if contains pods pod_name then pods else pod_name ∷ pods

-- the pods that the in-progress map names
unfoldable pub pods_of : Dict String → List String
pods_of [] = []
pods_of ((dest, pod_name) ∷ in_progress) = add_pod pod_name (pods_of in_progress)

unfoldable pub assign : List BatchItem → String → Dict String → Dict String
assign [] pod_name in_progress = in_progress
assign (item ∷ batch) pod_name in_progress =
    assign batch pod_name (insert item.dest pod_name in_progress)

pods_of-Unique : (in_progress : Dict String) → Unique (pods_of in_progress)
unfolding pods_of
pods_of-Unique [] = tt
pods_of-Unique ((dest, pod_name) ∷ in_progress) =
    elim (Bool-cases (contains (pods_of in_progress) pod_name)) [
      | inl there ↦ rw there (pods_of-Unique in_progress)
      | inr fresh ↦ rw fresh (fresh, pods_of-Unique in_progress)
    ]

contains-add_pod :
    (pod_name q : String) (pods : List String)
    → contains (add_pod pod_name pods) q ≡ pod_name == q || contains pods q
contains-add_pod pod_name q pods = elim (text-cases pod_name q) [
  | inl (y, same) ↦ ground (arith, y, ap (contains pods) same)
  | inr (n, _) ↦ ground (arith, n)
]

-- an insertion brings the pod that it names, and no other
contains-pods_of-insert :
    (dest pod_name q : String) (in_progress : Dict String)
    → contains (pods_of (insert dest pod_name in_progress)) q ≡ true
    → pod_name == q || contains (pods_of in_progress) q ≡ true
unfolding pods_of insert
contains-pods_of-insert dest pod_name q [] h = ground (arith, h, contains-add_pod pod_name q [])
contains-pods_of-insert dest pod_name q ((d, p) ∷ in_progress) h = elim (Bool-cases (d == dest)) [
  | inl same ↦ ground (
    arith,
    h,
    same,
    contains-add_pod pod_name q (pods_of in_progress),
    contains-add_pod p q (pods_of in_progress),
  )
  | inr other ↦
      let rest = contains-pods_of-insert dest pod_name q in_progress in
      ground (
        arith,
        h,
        other,
        rest,
        contains-add_pod p q (pods_of (insert dest pod_name in_progress)),
        contains-add_pod p q (pods_of in_progress),
      )
]

contains-pods_of-assign :
    (batch : List BatchItem) (pod_name q : String) (in_progress : Dict String)
    → contains (pods_of (assign batch pod_name in_progress)) q ≡ true
    → pod_name == q || contains (pods_of in_progress) q ≡ true
unfolding assign
contains-pods_of-assign [] pod_name q in_progress h = ground (arith, h)
contains-pods_of-assign (item ∷ batch) pod_name q in_progress h = ground (
  arith,
  contains-pods_of-assign batch pod_name q (insert item.dest pod_name in_progress) h,
  contains-pods_of-insert item.dest pod_name q in_progress,
)

length-drop : (n : ℕ) (xs : List BatchItem) → length (drop n xs) ≤ length xs
length-drop zero xs = omega arith
length-drop (suc n) [] = omega arith
length-drop (suc n) (x ∷ xs) = omega (arith, length-drop n xs)

drop_shorter :
    (n : ℕ) (item : BatchItem) (items : List BatchItem)
    → 1 ≤ n
    → length (drop n (item ∷ items)) ≤ length items
drop_shorter zero item items h = absurd (omega arith)
drop_shorter (suc n) item items h = length-drop n items

module _ {W : Type 0} (start : List BatchItem → W → Option String × W)
    (batch_size concurrency : ℕ) where
  abbrev pub after_start : List BatchItem → Dispatch W → Option String × W → Dispatch W
  after_start batch d (none, w) = record d { world = w }
  after_start batch d (some pod_name, w) = record {
    in_progress = assign batch pod_name d.in_progress;
    active_pods = add_pod pod_name d.active_pods;
    world = w;
  }

  unfoldable pub dispatch_batches : ℕ → List BatchItem → Dispatch W → Dispatch W
  dispatch_batches zero pending d = d
  dispatch_batches (suc n) [] d = d
  dispatch_batches (suc n) (item ∷ items) d =
      let batch = take batch_size (item ∷ items) in
      if ltb (length d.active_pods) concurrency
      then dispatch_batches n (drop batch_size (item ∷ items))
          (after_start batch d (start batch d.world))
      else d

  -- each round takes an image at least, so as many rounds as images are enough
  unfoldable pub dispatch : List BatchItem → Dict String → W → Dispatch W
  dispatch pending in_progress w =
      dispatch_batches (length pending) pending
        (record { in_progress = in_progress; active_pods = pods_of in_progress; world = w })

  after_start_pods :
      (batch : List BatchItem) (d : Dispatch W) (x : Option String × W)
      → length (after_start batch d x).active_pods ≤ suc (length d.active_pods)
  after_start_pods batch d (none, w) = omega arith
  after_start_pods batch d (some pod_name, w) = ground arith

  dispatch_batches_limit :
      (n : ℕ) (pending : List BatchItem) (d : Dispatch W)
      → (length d.active_pods ≤ concurrency
          → length (dispatch_batches n pending d).active_pods ≤ concurrency)
        × (concurrency ≤ length d.active_pods → dispatch_batches n pending d ≡ d)
  unfolding dispatch_batches
  dispatch_batches_limit zero pending d = (λ h. h, λ h. refl)
  dispatch_batches_limit (suc n) [] d = (λ h. h, λ h. refl)
  dispatch_batches_limit (suc n) (item ∷ items) d =
      let batch = take batch_size (item ∷ items) in
      let d' = after_start batch d (start batch d.world) in
      let one = after_start_pods batch d (start batch d.world) in
      let rest = dispatch_batches_limit n (drop batch_size (item ∷ items)) d' in
      elim (Bool-cases (ltb (length d.active_pods) concurrency)) [
        | inl room ↦ (λ h. ground (arith, one, rest), λ h. ground arith)
        | inr full ↦ (λ h. ground arith, λ h. ground arith)
      ]

  -- the loop counts every pod that the in-progress map names
  abbrev Counted : Dispatch W → Type 0
  Counted d =
      (q : String) → contains (pods_of d.in_progress) q ≡ true → contains d.active_pods q ≡ true

  after_start-Counted :
      (batch : List BatchItem) (d : Dispatch W) (x : Option String × W)
      → Counted d
      → Counted (after_start batch d x)
  after_start-Counted batch d (none, w) counted q h = counted q h
  after_start-Counted batch d (some pod_name, w) counted q h = ground (
    arith,
    contains-pods_of-assign batch pod_name q d.in_progress h,
    counted q,
    contains-add_pod pod_name q d.active_pods,
  )

  dispatch_batches-Counted :
      (n : ℕ) (pending : List BatchItem) (d : Dispatch W)
      → Counted d
      → Counted (dispatch_batches n pending d)
  unfolding dispatch_batches
  dispatch_batches-Counted zero pending d counted = counted
  dispatch_batches-Counted (suc n) [] d counted = counted
  dispatch_batches-Counted (suc n) (item ∷ items) d counted =
      let batch = take batch_size (item ∷ items) in
      let d' = after_start batch d (start batch d.world) in
      if_both Counted (ltb (length d.active_pods) concurrency)
        (dispatch_batches n (drop batch_size (item ∷ items)) d') d
        (dispatch_batches-Counted n (drop batch_size (item ∷ items)) d'
          (after_start-Counted batch d (start batch d.world) counted))
        counted

  -- The in-progress map after the dispatch names no more pods than the concurrency limit, if it did
  -- not before; and with the limit reached already the map is as before.
  pub dispatch_limit :
      (pending : List BatchItem) (in_progress : Dict String) (w : W)
      → let after = (dispatch pending in_progress w).in_progress in
        (length (pods_of in_progress) ≤ concurrency → length (pods_of after) ≤ concurrency)
        × (concurrency ≤ length (pods_of in_progress) → after ≡ in_progress)
  unfolding dispatch
  dispatch_limit pending in_progress w =
      let d : Dispatch W = record {
        in_progress = in_progress;
        active_pods = pods_of in_progress;
        world = w;
      } in
      let (below, full) = dispatch_batches_limit (length pending) pending d in
      let d' = dispatch_batches (length pending) pending d in
      let counted =
        length-Unique (pods_of d'.in_progress) d'.active_pods (pods_of-Unique d'.in_progress)
          (dispatch_batches-Counted (length pending) pending d (λ q h. h)) in
      (λ h. omega (arith, counted, below h), λ h. ap (λ x. x.in_progress) (full h))

  rounds_agree :
      (n k : ℕ) (pending : List BatchItem) (d : Dispatch W)
      → 1 ≤ batch_size
      → length pending ≤ n
      → length pending ≤ k
      → dispatch_batches n pending d ≡ dispatch_batches k pending d
  unfolding dispatch_batches
  rounds_agree zero zero pending d h a b = refl
  rounds_agree zero (suc k) [] d h a b = refl
  rounds_agree zero (suc k) (item ∷ items) d h a b = absurd (omega arith)
  rounds_agree (suc n) zero [] d h a b = refl
  rounds_agree (suc n) zero (item ∷ items) d h a b = absurd (omega arith)
  rounds_agree (suc n) (suc k) [] d h a b = refl
  rounds_agree (suc n) (suc k) (item ∷ items) d h a b =
      let batch = take batch_size (item ∷ items) in
      let shorter = drop_shorter batch_size item items h in
      ap (λ x. if ltb (length d.active_pods) concurrency then x else d)
        (rounds_agree n k (drop batch_size (item ∷ items))
          (after_start batch d (start batch d.world)) h (omega arith) (omega arith))

  -- With a batch size of one at least, further rounds change nothing: the dispatch ends because the
  -- images or the free worker slots are used up, never because the rounds are.
  pub enough_rounds :
      (pending : List BatchItem) (in_progress : Dict String) (w : W) (n : ℕ)
      → 1 ≤ batch_size
      → length pending ≤ n
      → dispatch pending in_progress w
        ≡ dispatch_batches n pending
            (record { in_progress = in_progress; active_pods = pods_of in_progress; world = w })
  unfolding dispatch
  enough_rounds pending in_progress w n h k =
      rounds_agree (length pending) n pending
        (record { in_progress = in_progress; active_pods = pods_of in_progress; world = w }) h
        (omega arith) k
