-- ===== src/Manager/Steps/Moves/Passes.antt =====
-- The moves of the pass over all entries, of the resets and of the removal of ImageSets.
use oc_mirror_operator.Base.{
  ℕ, String, subst, true, false, none, some, List, [], ◌∷◌, ◌≡◌, ◌==◌, arith, eq_iff, Option-cases,
  Bool-cases, inl, inr, text-cases,
}
use oc_mirror_operator.Base.Dict.{lookup, lookup-insert, lookup-remove, keys}
use oc_mirror_operator.Base.{for_each, for_each_keeps}
use oc_mirror_operator.ImageState.Entry.{state_mirrored, state_pending}
use oc_mirror_operator.Manager.State.{MirrorManager}
use oc_mirror_operator.Manager.Sweep.{
  Sweep, sweep, sweep_all, sweep_dest, sweep_entry, set_entry, move_to_orphans, retry_failed,
  collect_pending,
}
use oc_mirror_operator.Manager.Resync.{
  Reset, cleared, reset_image_set_to_pending, reset_dest, reset_entry, reset_failed_for_recollect,
  recollect_dest, recollect_entry,
}
use oc_mirror_operator.Manager.Removal.{drop_dest, drop_removed_image_sets}
use oc_mirror_operator.Manager.Steps.Lifecycle.{lifecycle, Allowed, Allowed-refl, Allowed-trans}

sweep_dest-Allowed :
    (now : ℕ) (dest : String) (s : Sweep) (j : String)
    → Allowed false false (lifecycle j s.manager) (lifecycle j (sweep_dest now dest s).manager)
unfolding sweep_dest sweep_entry set_entry move_to_orphans retry_failed collect_pending
sweep_dest-Allowed now dest s j = elim (Option-cases (lookup dest s.manager.image_state)) [
  | inl out ↦ record {
    known = λ h k. ground (arith, out, k);
    claimed = λ h k. ground (arith, out, k);
    given_up = λ h k. ground (arith, out, h, k);
  }
  | inr (e, found) ↦
      let st = s.manager.image_state in
      let gone = lookup-remove dest j st in
      let retried =
        lookup-insert dest j (record e { state = state_pending; next_retry_at = none }) st in
      let confirmed = lookup-insert dest j (record e { state = state_mirrored }) st in
      let ended = lookup-insert dest j (record e { permanently_failed = true }) st in
      let flagged = lookup-insert dest j true s.manager.mirrored in
      elim (text-cases dest j) [
        | inl (y, same) ↦
            let here : lookup j st ≡ some e = subst (λ x. lookup x st ≡ some e) same found in
            record {
              known = λ h k. ground (arith, here);
              claimed = λ h k.
                  ground (arith, found, here, same, k, y, gone, retried, confirmed, ended, flagged);
              given_up = λ h k.
                  ground (arith, found, here, same, h, k, y, gone, retried, confirmed, ended);
            }
        | inr (n, _) ↦ record {
          known = λ h k. ground (arith, found, k, n, gone, retried, confirmed, ended);
          claimed = λ h k. ground (arith, found, k, n, gone, retried, confirmed, ended, flagged);
          given_up = λ h k. ground (arith, found, h, n, gone, retried, confirmed, ended);
        }
      ]
]

sweep_all-Allowed :
    (now : ℕ) (dests : List String) (s : Sweep) (j : String)
    → Allowed false false (lifecycle j s.manager) (lifecycle j (sweep_all now dests s).manager)
unfolding sweep_all
sweep_all-Allowed now [] s j = Allowed-refl (lifecycle j s.manager)
sweep_all-Allowed now (dest ∷ dests) s j =
    let s' = sweep_dest now dest s in
    Allowed-trans (lifecycle j s.manager) (lifecycle j s'.manager)
      (lifecycle j (sweep_all now dests s').manager) (sweep_dest-Allowed now dest s j)
      (sweep_all-Allowed now dests s' j)

pub sweep-Allowed :
    (now : ℕ) (m : MirrorManager) (j : String)
    → Allowed false false (lifecycle j m) (lifecycle j (sweep now m).manager)
unfolding sweep
sweep-Allowed now m j =
    sweep_all-Allowed now (keys m.image_state)
      (record { manager = m; pending_images = []; pending_bundle_images = []; new_orphans = [] }) j

-- a loop whose body makes allowed moves makes an allowed move
for_each-Allowed :
    (step : String → Reset → Reset) (j : String)
    → ((dest : String) (r : Reset)
        → Allowed false false (lifecycle j r.manager) (lifecycle j (step dest r).manager))
    → (dests : List String) (m : MirrorManager)
    → Allowed false false
        (lifecycle j m)
        (lifecycle j (for_each step dests (record { manager = m; changed = false })).manager)
for_each-Allowed step j moves dests m =
    for_each_keeps step (λ r. Allowed false false (lifecycle j m) (lifecycle j r.manager))
      (λ dest r p.
        Allowed-trans (lifecycle j m) (lifecycle j r.manager) (lifecycle j (step dest r).manager) p
          (moves dest r))
      dests (record { manager = m; changed = false }) (Allowed-refl (lifecycle j m))

reset_dest-Allowed :
    (is_name dest : String) (r : Reset) (j : String)
    → Allowed false false (lifecycle j r.manager) (lifecycle j (reset_dest is_name dest r).manager)
unfolding reset_dest reset_entry
reset_dest-Allowed is_name dest r j =
    let st = r.manager.image_state in
    elim (Option-cases (lookup dest st)) [
      | inl out ↦ record {
        known = λ h k. ground (arith, out, k);
        claimed = λ h k. ground (arith, out, k);
        given_up = λ h k. ground (arith, out, h, k);
      }
      | inr (e, found) ↦
          let put = lookup-insert dest j (record (cleared e) { signature_verified = false }) st in
          let flagged = lookup-insert dest j false r.manager.mirrored in
          let here : (dest == j) ≡ true → lookup j st ≡ some e =
            λ y. subst (λ x. lookup x st ≡ some e) ((eq_iff dest j).0 y) found in
          elim (Bool-cases (dest == j)) [
            | inl y ↦ record {
              known = λ h k. ground (arith, here y);
              claimed = λ h k. ground (arith, found, here y, k, y, put, flagged);
              given_up = λ h k. ground (arith, found, here y, h, k, y, put);
            }
            | inr n ↦ record {
              known = λ h k. ground (arith, found, k, n, put);
              claimed = λ h k. ground (arith, found, k, n, put, flagged);
              given_up = λ h k. ground (arith, found, h, n, put);
            }
          ]
    ]

recollect_dest-Allowed :
    (is_name dest : String) (r : Reset) (j : String)
    → Allowed false false
        (lifecycle j r.manager)
        (lifecycle j (recollect_dest is_name dest r).manager)
unfolding recollect_dest recollect_entry
recollect_dest-Allowed is_name dest r j =
    let st = r.manager.image_state in
    elim (Option-cases (lookup dest st)) [
      | inl out ↦ record {
        known = λ h k. ground (arith, out, k);
        claimed = λ h k. ground (arith, out, k);
        given_up = λ h k. ground (arith, out, h, k);
      }
      | inr (e, found) ↦
          let put = lookup-insert dest j (cleared e) st in
          let here : (dest == j) ≡ true → lookup j st ≡ some e =
            λ y. subst (λ x. lookup x st ≡ some e) ((eq_iff dest j).0 y) found in
          elim (Bool-cases (dest == j)) [
            | inl y ↦ record {
              known = λ h k. ground (arith, here y);
              claimed = λ h k. ground (arith, found, here y, k, y, put);
              given_up = λ h k. ground (arith, found, here y, h, k, y, put);
            }
            | inr n ↦ record {
              known = λ h k. ground (arith, found, k, n, put);
              claimed = λ h k. ground (arith, found, k, n, put);
              given_up = λ h k. ground (arith, found, h, n, put);
            }
          ]
    ]

drop_dest-Allowed :
    (image_sets : List String) (dest : String) (r : Reset) (j : String)
    → Allowed false false
        (lifecycle j r.manager)
        (lifecycle j (drop_dest image_sets dest r).manager)
unfolding drop_dest
drop_dest-Allowed image_sets dest r j =
    let gone = lookup-remove dest j r.manager.image_state in
    let unflagged = lookup-remove dest j r.manager.mirrored in
    record {
      known = λ h k. ground (arith, k, gone);
      claimed = λ h k. ground (arith, k, gone, unflagged);
      given_up = λ h k. ground (arith, h, k, gone);
    }

pub reset_image_set_to_pending-Allowed :
    (is_name : String) (m : MirrorManager) (j : String)
    → Allowed false false
        (lifecycle j m)
        (lifecycle j (reset_image_set_to_pending is_name m).manager)
unfolding reset_image_set_to_pending
reset_image_set_to_pending-Allowed is_name m j =
    for_each-Allowed (reset_dest is_name) j (λ dest r. reset_dest-Allowed is_name dest r j)
      (keys m.image_state) m

pub reset_failed_for_recollect-Allowed :
    (is_name : String) (m : MirrorManager) (j : String)
    → Allowed false false
        (lifecycle j m)
        (lifecycle j (reset_failed_for_recollect is_name m).manager)
unfolding reset_failed_for_recollect
reset_failed_for_recollect-Allowed is_name m j =
    for_each-Allowed (recollect_dest is_name) j (λ dest r. recollect_dest-Allowed is_name dest r j)
      (keys m.image_state) m

pub drop_removed_image_sets-Allowed :
    (image_sets : List String) (m : MirrorManager) (j : String)
    → Allowed false false
        (lifecycle j m)
        (lifecycle j (drop_removed_image_sets image_sets m).manager)
unfolding drop_removed_image_sets
drop_removed_image_sets-Allowed image_sets m j =
    for_each-Allowed (drop_dest image_sets) j (λ dest r. drop_dest-Allowed image_sets dest r j)
      (keys m.owners) m
