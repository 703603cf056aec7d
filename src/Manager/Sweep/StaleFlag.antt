-- ===== src/Manager/Sweep/StaleFlag.antt =====
-- The fast-path flag `m.mirrored[dest]` across an orphaning: Phase D removes an orphaned entry and
-- its owners, and leaves the flag.
use oc_mirror_operator.Base.{
  ℕ, String, ◌≡◌, true, false, none, some, List, [], ◌∷◌, arith, eq_refl, Option-cases, Bool-cases,
  subst, sym, ◌⊎◌, ltb, inl, inr,
}
use oc_mirror_operator.Base.Dict.{
  lookup, keys, insert, remove, Distinct, insert-Distinct, remove-Distinct, lookup-insert,
}
use oc_mirror_operator.ImageState.Entry.{
  ImageEntry, ImageState, state_mirrored, state_pending, state_failed, state_eq,
}
use oc_mirror_operator.Manager.State.{MirrorManager}
use oc_mirror_operator.Manager.Sweep.{
  Sweep, no_owner, is_flagged, sweep_dest, sweep_all, sweep, dispatch_order, waits,
}
use oc_mirror_operator.Manager.Sweep.Local.{occurrences}
use oc_mirror_operator.Manager.Sweep.Outcome.{sweep_confirms, sweep_orphans_iff, start}
use oc_mirror_operator.Manager.Retry.{effective_max_retries}

sweep_dest_flag :
    (now : ℕ) (dest : String) (s : Sweep) (j : String)
    → is_flagged (lookup j s.manager.mirrored) ≡ true
    → is_flagged (lookup j (sweep_dest now dest s).manager.mirrored) ≡ true
unfolding sweep_dest
sweep_dest_flag now dest s j flagged = elim (Option-cases (lookup dest s.manager.image_state)) [
  | inl missing ↦ ground arith
  | inr (e, found) ↦ ground (arith, lookup-insert dest j true s.manager.mirrored)
]

sweep_all_flag :
    (now : ℕ) (ds : List String) (s : Sweep) (j : String)
    → is_flagged (lookup j s.manager.mirrored) ≡ true
    → is_flagged (lookup j (sweep_all now ds s).manager.mirrored) ≡ true
unfolding sweep_all
sweep_all_flag now [] s j flagged = flagged
sweep_all_flag now (d ∷ ds) s j flagged =
    sweep_all_flag now ds (sweep_dest now d s) j (sweep_dest_flag now d s j flagged)

-- what the pass leaves of the state after one destination
abbrev Shape : String → ImageState → ImageState → Type 0
Shape dest before after =
    (after ≡ before)
    ⊎ (after ≡ remove dest before)
    ⊎ ((e : ImageEntry) × (after ≡ insert dest e before))

Shape-Distinct :
    (dest : String) (before after : ImageState)
    → Shape dest before after
    → Distinct before
    → Distinct after
Shape-Distinct dest before after shape d = elim shape [
  | inl same ↦ subst Distinct (sym same) d
  | inr (inl gone) ↦ subst Distinct (sym gone) (remove-Distinct dest before d)
  | inr (inr (e, set)) ↦ subst Distinct (sym set) (insert-Distinct dest e before d)
]

module _ (now : ℕ) (dest : String) (s : Sweep) (e : ImageEntry) where
  retry_failed-Shape :
      lookup dest s.manager.image_state ≡ some e
      → (no_owner (lookup dest s.manager.owners) ≡ false)
      → Shape dest s.manager.image_state (sweep_dest now dest s).manager.image_state
  unfolding sweep_dest
  retry_failed-Shape found owned = elim (Bool-cases (state_eq e.state state_mirrored)) [
    | inl mirrored ↦ inl (ground arith)
    | inr unmirrored ↦ elim (Bool-cases (is_flagged (lookup dest s.manager.mirrored))) [
      | inl flagged ↦ inr (inr (record e { state = state_mirrored }, ground arith))
      | inr unflagged ↦ elim (Bool-cases (state_eq e.state state_failed)) [
        | inl failed ↦ elim (Bool-cases (ltb e.retry_count (effective_max_retries s.manager))) [
          | inl room ↦ elim (Bool-cases (waits now e.next_retry_at)) [
            | inl future ↦ inl (ground arith)
            | inr past ↦
                inr (inr (record e { state = state_pending; next_retry_at = none }, ground arith))
          ]
          | inr spent ↦ elim (Bool-cases e.permanently_failed) [
            | inl given_up ↦ inl (ground arith)
            | inr fresh ↦ inr (inr (record e { permanently_failed = true }, ground arith))
          ]
        ]
        | inr unfailed ↦ inl (ground arith)
      ]
    ]
  ]

sweep_dest-Shape :
    (now : ℕ) (dest : String) (s : Sweep)
    → Shape dest s.manager.image_state (sweep_dest now dest s).manager.image_state
unfolding sweep_dest
sweep_dest-Shape now dest s = elim (Option-cases (lookup dest s.manager.image_state)) [
  | inl missing ↦ inl (ground arith)
  | inr (e, found) ↦ elim (Bool-cases (no_owner (lookup dest s.manager.owners))) [
    | inl orphaned ↦ inr (inl (ground arith))
    | inr owned ↦ retry_failed-Shape now dest s e found owned
  ]
]

sweep_all-Distinct :
    (now : ℕ) (ds : List String) (s : Sweep)
    → Distinct s.manager.image_state
    → Distinct (sweep_all now ds s).manager.image_state
unfolding sweep_all
sweep_all-Distinct now [] s d = d
sweep_all-Distinct now (x ∷ ds) s d = sweep_all-Distinct now ds (sweep_dest now x s) (
    Shape-Distinct x s.manager.image_state (sweep_dest now x s).manager.image_state
      (sweep_dest-Shape now x s) d)

-- The pass keeps the destinations of the state distinct.
pub sweep-Distinct :
    (now : ℕ) (m : MirrorManager)
    → Distinct m.image_state
    → Distinct (sweep now m).manager.image_state
unfolding sweep
sweep-Distinct now m d = sweep_all-Distinct now (keys m.image_state) (start m) d

sweep_flag :
    (now : ℕ) (m : MirrorManager) (j : String)
    → is_flagged (lookup j m.mirrored) ≡ true
    → is_flagged (lookup j (sweep now m).manager.mirrored) ≡ true
unfolding sweep
sweep_flag now m j flagged = sweep_all_flag now (keys m.image_state) (start m) j flagged

-- the state in which a destination is wanted again, with an entry and owners
unfoldable pub re_added : String → ImageEntry → List String → MirrorManager → MirrorManager
re_added j e os m = record m {
  image_state = insert j e m.image_state;
  owners = insert j os m.owners;
}

-- When an image that was confirmed once loses its owners, the pass removes its entry and keeps its
-- fast-path flag: if the image is wanted again later, with a fresh Pending entry, the next pass
-- marks it Mirrored and does not dispatch it.
pub re_added_is_not_mirrored_again :
    (now later : ℕ) (m : MirrorManager) (j : String) (e fresh : ImageEntry) (os : List String)
    → Distinct m.image_state
    → lookup j m.image_state ≡ some e
    → no_owner (lookup j m.owners) ≡ true
    → is_flagged (lookup j m.mirrored) ≡ true
    → fresh.state ≡ state_pending
    → no_owner (some os) ≡ false
    → let gone = (sweep now m).manager in
      let again = sweep later (re_added j fresh os gone) in
      (lookup j gone.image_state ≡ none)
      × (lookup j again.manager.image_state ≡ some (record fresh { state = state_mirrored }))
      × (occurrences j (dispatch_order again) ≡ 0)
unfolding re_added
re_added_is_not_mirrored_again now later m j e fresh os d known orphaned flagged pending owned =
    let gone = (sweep now m).manager in
    let back = re_added j fresh os gone in
    let d' : Distinct back.image_state =
      insert-Distinct j fresh gone.image_state (sweep-Distinct now m d) in
    let here : lookup j back.image_state ≡ some fresh =
      ground (arith, eq_refl j, lookup-insert j j fresh gone.image_state) in
    let wanted : no_owner (lookup j back.owners) ≡ false =
      ground (arith, eq_refl j, lookup-insert j j os gone.owners) in
    (
      ((sweep_orphans_iff now m j e d known).0 orphaned).0,
      (sweep_confirms later back j fresh d' here wanted (sweep_flag now m j flagged)).0,
      (sweep_confirms later back j fresh d' here wanted (sweep_flag now m j flagged)).1,
    )
