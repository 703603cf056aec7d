-- ===== src/Manager/Sweep/Local.antt =====
-- What the pass of Phase D does to one destination depends on that destination alone.
use oc_mirror_operator.Base.{
  ℕ, suc, ◌+◌, String, ◌≡◌, refl, Bool, true, false, Option, none, some, List, [], ◌∷◌, ◌++◌, ◌==◌,
  ◌&&◌, not, arith, eq_refl, if◌then◌else◌, Option-cases, inl, inr, ltb, contains, Unique, ◌∙◌,
  text-cases, subst, ap, is_some,
}
use oc_mirror_operator.Base.Dict.{lookup, lookup-insert, lookup-remove}
use oc_mirror_operator.ImageState.Entry.{
  ImageEntry, state_mirrored, state_failed, state_pending, state_eq,
}
use oc_mirror_operator.Manager.State.{MirrorManager, BatchItem}
use oc_mirror_operator.Manager.Retry.{effective_max_retries}
use oc_mirror_operator.Manager.Sweep.{
  Sweep, no_owner, is_flagged, is_tracked, waits, sweep_dest, sweep_all,
}

-- what the pass reads of one destination
pub record Local : Type 0 where
  pub entry : Option ImageEntry
  pub owners : Option (List String)
  pub flag : Option Bool
  pub pod : Option String
  pub budget : ℕ

abbrev pub local : MirrorManager → String → Local
local m j = record {
  entry = lookup j m.image_state;
  owners = lookup j m.owners;
  flag = lookup j m.mirrored;
  pod = lookup j m.in_progress;
  budget = effective_max_retries m;
}

-- how often a destination is in a list of batch items
unfoldable pub occurrences : String → List BatchItem → ℕ
occurrences j [] = 0
occurrences j (item ∷ items) =
    let rest = occurrences j items in if item.dest == j then suc rest else rest

pub occurrences-append :
    (j : String) (xs ys : List BatchItem)
    → occurrences j (xs ++ ys) ≡ occurrences j xs + occurrences j ys
unfolding occurrences
occurrences-append j [] ys = omega arith
occurrences-append j (x ∷ xs) ys = ground (arith, occurrences-append j xs ys)

-- collected for dispatch, as a bundle image or not
abbrev pub collected : String → Sweep → ℕ
collected j s = occurrences j s.pending_images + occurrences j s.pending_bundle_images

-- the entry is Pending and free to be given to a worker
abbrev dispatchable_entry : Local → ImageEntry → Bool
dispatchable_entry l e =
    not (no_owner l.owners)
    && state_eq e.state state_pending
    && not (is_flagged l.flag)
    && not (is_tracked l.pod)

abbrev pub is_dispatchable : Local → Option ImageEntry → Bool
is_dispatchable l none = false
is_dispatchable l (some e) = dispatchable_entry l e

-- the entry after the pass
abbrev swept_entry : ℕ → Local → ImageEntry → Option ImageEntry
swept_entry now l e =
    if no_owner l.owners
    then none
    else if state_eq e.state state_mirrored
    then some e
    else if is_flagged l.flag
    then some (record e { state = state_mirrored })
    else if state_eq e.state state_failed
    then if ltb e.retry_count l.budget
      then if waits now e.next_retry_at
        then some e
        else some (record e { state = state_pending; next_retry_at = none })
      else some (record e { permanently_failed = true })
    else some e

abbrev pub swept : ℕ → Local → Option ImageEntry → Option ImageEntry
swept now l none = none
swept now l (some e) = swept_entry now l e

module _ (now : ℕ) (dest : String) (s : Sweep) where
  -- other destinations keep everything that the pass reads
  local-sweep_dest :
      (j : String)
      → (dest == j) ≡ false
      → local (sweep_dest now dest s).manager j ≡ local s.manager j
  unfolding sweep_dest effective_max_retries
  local-sweep_dest j other = elim (Option-cases (lookup dest s.manager.image_state)) [
    | inl missing ↦ ground arith
    | inr (e, found) ↦ ground (
      arith,
      lookup-remove dest j s.manager.image_state,
      lookup-remove dest j s.manager.owners,
      lookup-insert dest j true s.manager.mirrored,
      lookup-insert dest j (record e { state = state_mirrored }) s.manager.image_state,
      lookup-insert dest j (record e { state = state_pending; next_retry_at = none })
          s.manager.image_state,
      lookup-insert dest j (record e { permanently_failed = true }) s.manager.image_state,
    )
  ]

  collected-sweep_dest :
      (j : String) → (dest == j) ≡ false → collected j (sweep_dest now dest s) ≡ collected j s
  unfolding sweep_dest occurrences
  collected-sweep_dest j other = elim (Option-cases (lookup dest s.manager.image_state)) [
    | inl missing ↦ ground arith
    | inr (e, found) ↦
        let item : BatchItem = record { source = e.source; dest = dest } in
        ground (
          arith,
          occurrences-append j s.pending_images (item ∷ []),
          occurrences-append j s.pending_bundle_images (item ∷ []),
        )
  ]

  -- at its own destination the pass does what the local view says
  sweep_dest_here :
      let l = local s.manager dest in
      (lookup dest (sweep_dest now dest s).manager.image_state ≡ swept now l l.entry)
      × (collected dest (sweep_dest now dest s)
          ≡ collected dest s + (if is_dispatchable l l.entry then 1 else 0))
  unfolding sweep_dest occurrences effective_max_retries
  sweep_dest_here = elim (Option-cases (lookup dest s.manager.image_state)) [
    | inl missing ↦ ground arith
    | inr (e, found) ↦
        let item : BatchItem = record { source = e.source; dest = dest } in
        ground (
          arith,
          eq_refl dest,
          occurrences-append dest s.pending_images (item ∷ []),
          occurrences-append dest s.pending_bundle_images (item ∷ []),
          lookup-remove dest dest s.manager.image_state,
          lookup-insert dest dest (record e { state = state_mirrored }) s.manager.image_state,
          lookup-insert dest dest (record e { state = state_pending; next_retry_at = none })
              s.manager.image_state,
          lookup-insert dest dest (record e { permanently_failed = true }) s.manager.image_state,
        )
  ]

  orphans-sweep_dest :
      (j : String)
      → (dest == j) ≡ false
      → lookup j (sweep_dest now dest s).new_orphans ≡ lookup j s.new_orphans
  unfolding sweep_dest
  orphans-sweep_dest j other = elim (Option-cases (lookup dest s.manager.image_state)) [
    | inl missing ↦ ground arith
    | inr (e, found) ↦ ground (arith, lookup-insert dest j e s.new_orphans)
  ]

  orphans_here :
      let l = local s.manager dest in
      lookup dest (sweep_dest now dest s).new_orphans
      ≡ (if is_some l.entry && no_owner l.owners then l.entry else lookup dest s.new_orphans)
  unfolding sweep_dest
  orphans_here = elim (Option-cases (lookup dest s.manager.image_state)) [
    | inl missing ↦ ground arith
    | inr (e, found) ↦ ground (arith, eq_refl dest, lookup-insert dest dest e s.new_orphans)
  ]

-- the outcome of a whole pass at one destination
pub record Outcome (now : ℕ) (l : Local) (s s' : Sweep) (j : String) : Type 0 where
  pub entry : lookup j s'.manager.image_state ≡ swept now l l.entry
  pub items : collected j s' ≡ collected j s + (if is_dispatchable l l.entry then 1 else 0)
  pub orphan :
      lookup j s'.new_orphans
      ≡ (if is_some l.entry && no_owner l.owners then l.entry else lookup j s.new_orphans)

record Untouched (s s' : Sweep) (j : String) : Type 0 where
  view : local s'.manager j ≡ local s.manager j
  items : collected j s' ≡ collected j s
  orphan : lookup j s'.new_orphans ≡ lookup j s.new_orphans

sweep_dest-Untouched :
    (now : ℕ) (dest : String) (s : Sweep) (j : String)
    → (dest == j) ≡ false
    → Untouched s (sweep_dest now dest s) j
sweep_dest-Untouched now dest s j other = record {
  view = local-sweep_dest now dest s j other;
  items = collected-sweep_dest now dest s j other;
  orphan = orphans-sweep_dest now dest s j other;
}

sweep_all-Untouched :
    (now : ℕ) (ds : List String) (s : Sweep) (j : String)
    → contains ds j ≡ false
    → Untouched s (sweep_all now ds s) j
unfolding sweep_all
sweep_all-Untouched now [] s j absent = record { view = refl; items = refl; orphan = refl }
sweep_all-Untouched now (d ∷ ds) s j absent =
    let first = sweep_dest-Untouched now d s j (ground arith) in
    let rest = sweep_all-Untouched now ds (sweep_dest now d s) j (ground arith) in
    record {
      view = rest.view ∙ first.view;
      items = rest.items ∙ first.items;
      orphan = rest.orphan ∙ first.orphan;
    }

pub sweep_all-Outcome :
    (now : ℕ) (ds : List String) (s : Sweep) (j : String)
    → Unique ds
    → contains ds j ≡ true
    → Outcome now (local s.manager j) s (sweep_all now ds s) j
unfolding sweep_all
sweep_all-Outcome now [] s j u present = cc
sweep_all-Outcome now (d ∷ ds) s j (fresh, u) present = elim (text-cases d j) [
  | inl (y, same) ↦
      let gone : contains ds j ≡ false = subst (λ x. contains ds x ≡ false) same fresh in
      let rest = sweep_all-Untouched now ds (sweep_dest now d s) j gone in
      let (entry, items) =
        subst
          (λ x.
            let l = local s.manager x in
            (lookup x (sweep_dest now d s).manager.image_state ≡ swept now l l.entry)
            × (collected x (sweep_dest now d s)
                ≡ collected x s + (if is_dispatchable l l.entry then 1 else 0)))
          same (sweep_dest_here now d s) in
      let orphan =
        subst
          (λ x.
            let l = local s.manager x in
            lookup x (sweep_dest now d s).new_orphans
            ≡ (if is_some l.entry && no_owner l.owners then l.entry else lookup x s.new_orphans))
          same (orphans_here now d s) in
      record {
        entry = ap (λ l. l.entry) rest.view ∙ entry;
        items = rest.items ∙ items;
        orphan = rest.orphan ∙ orphan;
      }
  | inr (n, _) ↦
      let first = sweep_dest-Untouched now d s j n in
      let rest = sweep_all-Outcome now ds (sweep_dest now d s) j u (ground arith) in
      let at = λ (l : Local). swept now l l.entry in
      record {
        entry = rest.entry ∙ ap at first.view;
        items = ground (arith, rest.items, first.items, first.view);
        orphan = ground (arith, rest.orphan, first.orphan, first.view);
      }
]
