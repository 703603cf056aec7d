-- ===== src/Manager/Steps/Held.antt =====
-- An image in progress stays with its pod.
use oc_mirror_operator.Base.{
  ℕ, zero, suc, String, Bool, true, false, Option, none, some, List, [], ◌∷◌, ◌++◌, ◌≡◌, ◌==◌, ◌||◌,
  ◌∙◌, refl, ap, sym, subst, arith, eq_iff, inl, inr, if_both, Option-cases, take, drop, ltb,
  length,
}
use oc_mirror_operator.Base.Dict.{Dict, lookup, insert, remove, keys, lookup-insert, lookup-remove}
use oc_mirror_operator.ImageState.Entry.{state_pending}
use oc_mirror_operator.Manager.State.{MirrorManager, BatchItem, Tick}
use oc_mirror_operator.Manager.Reports.Queue.{set_image_state_books}
use oc_mirror_operator.Manager.Workers.{Finished, release_worker, release_workers}
use oc_mirror_operator.Manager.Sweep.{
  Sweep, sweep, sweep_all, sweep_dest, sweep_entry, set_entry, move_to_orphans, retry_failed,
  collect_pending, dispatch_order, is_tracked,
}
use oc_mirror_operator.Manager.Sweep.Local.{occurrences, occurrences-append}
use oc_mirror_operator.Manager.Dispatch.{
  Dispatch, assign, after_start, dispatch_batches, dispatch, pods_of,
}
use oc_mirror_operator.Manager.Steps.{answer, dispatched}

-- what a pass has of a tracked image: it is collected for no pod
record Quiet (j : String) (p : Dict String) (s : Sweep) : Type 0 where
  pods : s.manager.in_progress ≡ p
  images : occurrences j s.pending_images ≡ 0
  bundles : occurrences j s.pending_bundle_images ≡ 0

sweep_dest-Quiet :
    (now : ℕ) (dest j : String) (p : Dict String) (s : Sweep)
    → is_tracked (lookup j p) ≡ true
    → Quiet j p s
    → Quiet j p (sweep_dest now dest s)
unfolding sweep_dest sweep_entry set_entry move_to_orphans retry_failed collect_pending occurrences
sweep_dest-Quiet now dest j p s tracked q =
    elim (Option-cases (lookup dest s.manager.image_state)) [
      | inl missing ↦ record {
        pods = ground (arith, missing, q.pods);
        images = ground (arith, missing, q.images);
        bundles = ground (arith, missing, q.bundles);
      }
      | inr (e, found) ↦
          let item : BatchItem = record { source = e.source; dest = dest } in
          let more = occurrences-append j s.pending_images (item ∷ []) in
          let more_bundles = occurrences-append j s.pending_bundle_images (item ∷ []) in
          let same : (sweep_entry now dest e s).manager.in_progress ≡ s.manager.in_progress =
            ground arith in
          let here : (dest == j) ≡ true → is_tracked (lookup dest s.manager.in_progress) ≡ true =
            λ y.
              ap (λ x. is_tracked (lookup dest x)) q.pods
              ∙ subst (λ x. is_tracked (lookup x p) ≡ true) (sym ((eq_iff dest j).0 y)) tracked in
          record {
            pods = ground (arith, found, same, q.pods);
            images = ground (arith, found, q.images, more, here);
            bundles = ground (arith, found, q.bundles, more_bundles, here);
          }
    ]

sweep_all-Quiet :
    (now : ℕ) (dests : List String) (j : String) (p : Dict String) (s : Sweep)
    → is_tracked (lookup j p) ≡ true
    → Quiet j p s
    → Quiet j p (sweep_all now dests s)
unfolding sweep_all
sweep_all-Quiet now [] j p s tracked q = q
sweep_all-Quiet now (dest ∷ dests) j p s tracked q =
    sweep_all-Quiet now dests j p (sweep_dest now dest s) tracked
      (sweep_dest-Quiet now dest j p s tracked q)

sweep-Quiet :
    (now : ℕ) (m : MirrorManager) (j : String)
    → is_tracked (lookup j m.in_progress) ≡ true
    → Quiet j m.in_progress (sweep now m)
unfolding sweep occurrences
sweep-Quiet now m j tracked =
    sweep_all-Quiet now (keys m.image_state) j m.in_progress _ tracked
      (record { pods = refl; images = refl; bundles = refl })

occurrences-take-drop :
    (n : ℕ) (j : String) (items : List BatchItem)
    → occurrences j items ≡ 0
    → (occurrences j (take n items) ≡ 0) × (occurrences j (drop n items) ≡ 0)
unfolding occurrences
occurrences-take-drop zero j items h = (refl, h)
occurrences-take-drop (suc n) j [] h = (refl, refl)
occurrences-take-drop (suc n) j (item ∷ items) h =
    let rest = occurrences-take-drop n j items (ground (arith, h)) in
    (ground (arith, h, rest.0), rest.1)

lookup-assign :
    (batch : List BatchItem) (pod_name j : String) (p : Dict String)
    → occurrences j batch ≡ 0
    → lookup j (assign batch pod_name p) ≡ lookup j p
unfolding assign occurrences
lookup-assign [] pod_name j p h = refl
lookup-assign (item ∷ batch) pod_name j p h =
    lookup-assign batch pod_name j (insert item.dest pod_name p) (ground (arith, h))
    ∙ ground (arith, h, lookup-insert item.dest j pod_name p)

module _ (batch_size concurrency : ℕ) where
  lookup-after_start :
      (j : String) (batch : List BatchItem) (d : Dispatch (List (Option String)))
      (x : Option String × List (Option String))
      → occurrences j batch ≡ 0
      → lookup j (after_start answer batch_size concurrency batch d x).in_progress
        ≡ lookup j d.in_progress
  lookup-after_start j batch d (none, w) h = refl
  lookup-after_start j batch d (some pod_name, w) h = lookup-assign batch pod_name j d.in_progress h

  lookup-dispatch_batches :
      (n : ℕ) (j : String) (pending : List BatchItem) (d : Dispatch (List (Option String)))
      → occurrences j pending ≡ 0
      → lookup j (dispatch_batches answer batch_size concurrency n pending d).in_progress
        ≡ lookup j d.in_progress
  unfolding dispatch_batches
  lookup-dispatch_batches zero j pending d h = refl
  lookup-dispatch_batches (suc n) j [] d h = refl
  lookup-dispatch_batches (suc n) j (item ∷ items) d h =
      let batch = take batch_size (item ∷ items) in
      let part = occurrences-take-drop batch_size j (item ∷ items) h in
      let d' = after_start answer batch_size concurrency batch d (answer batch d.world) in
      if_both (λ x. lookup j x.in_progress ≡ lookup j d.in_progress)
        (ltb (length d.active_pods) concurrency)
        (dispatch_batches answer batch_size concurrency n (drop batch_size (item ∷ items)) d') d
        (lookup-dispatch_batches n j (drop batch_size (item ∷ items)) d' part.1
          ∙ lookup-after_start j batch d (answer batch d.world) part.0)
        refl

-- a pass gives a tracked image to no pod
pub pass-holds :
    (now batch_size concurrency : ℕ) (names : List (Option String)) (m : MirrorManager) (j : String)
    → is_tracked (lookup j m.in_progress) ≡ true
    → (occurrences j (dispatch_order (sweep now m)) ≡ 0)
      × (lookup j (dispatched batch_size concurrency names (sweep now m)).in_progress
          ≡ lookup j m.in_progress)
unfolding dispatch_order dispatch
pass-holds now batch_size concurrency names m j tracked =
    let s = sweep now m in
    let q = sweep-Quiet now m j tracked in
    let pending = s.pending_bundle_images ++ s.pending_images in
    let nowhere : occurrences j pending ≡ 0 =
      ground (
        arith,
        q.images,
        q.bundles,
        occurrences-append j s.pending_bundle_images s.pending_images,
      ) in
    (
      nowhere,
      lookup-dispatch_batches batch_size concurrency (length pending) j pending
            (record {
              in_progress = s.manager.in_progress;
              active_pods = pods_of s.manager.in_progress;
              world = names;
            })
            nowhere
          ∙ ap (lookup j) q.pods,
    )

-- the cleanup found that the pod of the destination is finished, gone or stuck
abbrev pub ended : String → List Finished → Bool
ended dest [] = false
ended dest (f ∷ done) = f.dest == dest || ended dest done

pub lookup-release_workers :
    (t : Tick) (done : List Finished) (m : MirrorManager) (j : String)
    → ended j done ≡ false
    → lookup j (release_workers t done m).in_progress ≡ lookup j m.in_progress
unfolding release_workers release_worker
lookup-release_workers t [] m j h = refl
lookup-release_workers t (f ∷ done) m j h =
    let m' = record m { in_progress = remove f.dest m.in_progress } in
    lookup-release_workers t done (release_worker t f m) j (ground (arith, h))
    ∙ ground (
      arith,
      h,
      lookup-remove f.dest j m.in_progress,
      set_image_state_books t f.dest state_pending "" m',
    )
