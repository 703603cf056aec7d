-- ===== src/Manager/Workers/Deletion.antt =====
-- Which pods `cleanupFinishedWorkers` deletes.
use mathlib.Core.List.{Memᴰ}
use oc_mirror_operator.Base.{
  ℕ, String, ◌≡◌, ◌≢◌, refl, true, Option, none, some, List, [], ◌∷◌, ◌++◌, ◌&&◌, ◌||◌, not, arith,
  eq_refl, if◌then◌else◌, Bool-cases, inl, inr, contains, contains-append, All, All-append,
}
use oc_mirror_operator.Base.Dict.{Dict}
use oc_mirror_operator.Manager.State.{MirrorManager, Tick}
use oc_mirror_operator.Manager.Workers.{
  PodPhase, Pod, Finished, is_finished, finished_of, finished_workers, deleted_pods, delete_done,
  sweep_orphans, cleanup_finished_workers,
}
use oc_mirror_operator.Manager.Workers.Cleanup.{Removable, finished_of-Removable}

-- every finished worker with a pod satisfies what `finished_of` promises
AllPresent : (String → Type 0) → List Finished → Type 0
AllPresent P [] = Unit
AllPresent P (f ∷ done) = (f.phase ≢ none → P f.pod_name) × AllPresent P done

finished_workers-Removable :
    (now : ℕ) (pods : List Pod) (snapshot : Dict String)
    → AllPresent (Removable now pods) (finished_workers now pods snapshot)
unfolding finished_workers AllPresent
finished_workers-Removable now pods [] = tt
finished_workers-Removable now pods ((dest, name) ∷ snapshot) =
    go (finished_of now pods dest name) refl (finished_workers-Removable now pods snapshot)
  where
    go :
        (o : Option Finished)
        → finished_of now pods dest name ≡ o
        → AllPresent (Removable now pods) (finished_workers now pods snapshot)
        → AllPresent (Removable now pods) (elim o [
          | none ↦ finished_workers now pods snapshot
          | some f ↦ f ∷ finished_workers now pods snapshot
        ])
    go none e rest = rest
    go (some f) e rest = ((λ p. finished_of-Removable now pods dest name f e p), rest)

delete_done_All :
    (P : String → Type 0) (done : List Finished) (deleted : List String)
    → AllPresent P done
    → All P deleted
    → All P (delete_done done deleted)
unfolding delete_done AllPresent
delete_done_All P [] deleted _ h = h
delete_done_All P (f ∷ done) deleted (here, rest) h =
    go f.phase refl (delete_done_All P done deleted rest h) (λ present.
      delete_done_All P done
        (if contains deleted f.pod_name then deleted else deleted ++ f.pod_name ∷ []) rest
        (grown present))
  where
    grown :
        f.phase ≢ none
        → All P (if contains deleted f.pod_name then deleted else deleted ++ f.pod_name ∷ [])
    grown present = elim (Bool-cases (contains deleted f.pod_name)) [
      | inl y ↦ rw y h
      | inr n ↦ rw n (All-append P deleted (f.pod_name ∷ []) h (here present, tt))
    ]

    go :
        (o : Option PodPhase)
        → f.phase ≡ o
        → All P (delete_done done deleted)
        → (f.phase ≢ none
            → All P (
                delete_done done
                  (if contains deleted f.pod_name then deleted else deleted ++ f.pod_name ∷ [])))
        → All P (elim o [
          | none ↦ delete_done done deleted
          | some _ ↦
              delete_done done
                (if contains deleted f.pod_name then deleted else deleted ++ f.pod_name ∷ [])
        ])
    go none e stay grow = stay
    go (some ph) e stay grow = grow (λ p. ground arith)

sweep_orphans_All :
    (now : ℕ) (pods swept : List Pod) (deleted : List String)
    → ((pod : Pod) → Memᴰ pod swept → Memᴰ pod pods)
    → All (Removable now pods) (sweep_orphans swept deleted)
unfolding sweep_orphans
sweep_orphans_All now pods [] deleted inside = tt
sweep_orphans_All now pods (pod ∷ swept) deleted inside =
    let rest = sweep_orphans_All now pods swept deleted (λ p h. inside p (Memᴰ.tail h)) in
    elim (Bool-cases (is_finished pod.phase && not (contains deleted pod.name))) [
      | inl y ↦ rw y ((pod, inside pod (Memᴰ.head refl), refl, inl (ground arith)), rest)
      | inr n ↦ rw n rest
    ]

swept_or_deleted :
    (pods : List Pod) (deleted : List String) (pod : Pod)
    → Memᴰ pod pods
    → is_finished pod.phase ≡ true
    → contains deleted pod.name || contains (sweep_orphans pods deleted) pod.name ≡ true
unfolding sweep_orphans
swept_or_deleted [] deleted pod h over = elim h [ ]
swept_or_deleted (p ∷ pods) deleted pod (Memᴰ.head e) over = ground (arith, eq_refl pod.name)
swept_or_deleted (p ∷ pods) deleted pod (Memᴰ.tail h) over =
    ground (arith, swept_or_deleted pods deleted pod h over)

deleted_pods_All :
    (now : ℕ) (pods : List Pod) (snapshot : Dict String)
    → let deleted = deleted_pods pods (finished_workers now pods snapshot) in
      All (Removable now pods) deleted
      × ((pod : Pod)
          → Memᴰ pod pods
          → is_finished pod.phase ≡ true
          → contains deleted pod.name ≡ true)
unfolding deleted_pods
deleted_pods_All now pods snapshot =
    let done = finished_workers now pods snapshot in
    let deleted = delete_done done [] in
    (
      All-append (Removable now pods) deleted (sweep_orphans pods deleted)
          (delete_done_All (Removable now pods) done []
            (finished_workers-Removable now pods snapshot) tt)
          (sweep_orphans_All now pods pods deleted (λ p h. h)),
      λ pod here over.
          rw (contains-append deleted (sweep_orphans pods deleted) pod.name)
            (swept_or_deleted pods deleted pod here over),
    )

cleanup_deleted :
    (ticks : ℕ → Tick) (pods : List Pod) (snapshot : Dict String) (m : MirrorManager)
    → (cleanup_finished_workers ticks (some pods) snapshot m).1
      ≡ deleted_pods pods (finished_workers (ticks 0).now pods snapshot)
unfolding cleanup_finished_workers
cleanup_deleted ticks pods snapshot m = ground arith

-- Only pods of the list that are finished, or that were stuck in Pending for too long, are deleted,
-- and every finished pod of the list is, whether or not it is tracked.
pub cleanup_deletes :
    (ticks : ℕ → Tick) (pods : List Pod) (snapshot : Dict String) (m : MirrorManager)
    → let deleted = (cleanup_finished_workers ticks (some pods) snapshot m).1 in
      All (Removable (ticks 0).now pods) deleted
      × ((pod : Pod)
          → Memᴰ pod pods
          → is_finished pod.phase ≡ true
          → contains deleted pod.name ≡ true)
cleanup_deletes ticks pods snapshot m =
    rw (cleanup_deleted ticks pods snapshot m) (deleted_pods_All (ticks 0).now pods snapshot)
