-- ===== src/Manager/Steps/Moves/Resolved.antt =====
-- The moves of the answer of a resolve.
use oc_mirror_operator.Base.{
  String, Bool, true, false, Option, none, some, [], ◌∷◌, ◌≡◌, ◌==◌, ◌&&◌, ◌||◌, arith,
  if◌then◌else◌, if_both, Option-cases, Bool-cases, inl, inr, refl, subst, sym, ◌∙◌, text-cases,
}
use oc_mirror_operator.Base.Dict.{Dict, lookup, insert, lookup-insert, update_entries}
use oc_mirror_operator.ImageState.Entry.{ImageEntry, ImageState}
use oc_mirror_operator.Manager.State.{MirrorManager}
use oc_mirror_operator.Manager.Ownership.{
  Consolidated, upsert, upsert_all, refresh_entry, refreshed, only_owner,
  merge_resolved_into_consolidated,
}
use oc_mirror_operator.Manager.Resolve.Live.{merge_worker_updates, with_live}
use oc_mirror_operator.Manager.Phases.{
  after_resolve, merge_image_set, recollected, noted_in_state, set_catalog_digests, maps_equal,
  digests_or_nil,
}
use oc_mirror_operator.Manager.Steps.{brings, result_brings, is_mirrored}
use oc_mirror_operator.Manager.Steps.Lifecycle.{
  Lifecycle, lifecycle, seen, entry_has, Allowed, Allowed-refl,
}
use oc_mirror_operator.Manager.Steps.Moves.Passes.{reset_failed_for_recollect-Allowed}

-- a move that loses nothing
record Grows (adding vouching : Bool) (before after : Lifecycle) : Type 0 where
  known : adding ≡ false → after.known ≡ true → before.known ≡ true
  claimed : vouching ≡ false → after.claimed ≡ true → before.claimed ≡ true
  given_up : before.given_up ≡ true → after.given_up ≡ true

upsert-Grows :
    (is_name dest : String) (e : ImageEntry) (c : Consolidated) (flag : Option Bool) (j : String)
    → Grows
        (dest == j)
        (dest == j && is_mirrored e)
        (seen (lookup j c.state) flag)
        (seen (lookup j (upsert is_name dest e c).state) flag)
unfolding upsert
upsert-Grows is_name dest e c flag j =
    let sole = only_owner c.owners dest is_name in
    let law = lookup-insert dest j (refreshed sole e (lookup dest c.state)) c.state in
    elim (text-cases dest j) [
      | inr (n, _) ↦ record {
        known = λ h k. ground (arith, n, law, k);
        claimed = λ h k. ground (arith, n, law, k);
        given_up = λ h. ground (arith, n, law, h);
      }
      | inl (y, same) ↦ elim (Option-cases (lookup j c.state)) [
        | inl out ↦
            let here : lookup dest c.state ≡ none =
              subst (λ x. lookup x c.state ≡ none) (sym same) out in
            record {
              known = λ h k. ground (arith, y, h);
              claimed = λ h k. ground (arith, y, h, law, k, out, here);
              given_up = λ h. ground (arith, out, h);
            }
        | inr (old, found) ↦
            let here : lookup dest c.state ≡ some old =
              subst (λ x. lookup x c.state ≡ some old) (sym same) found in
            record {
              known = λ h k. ground (arith, found);
              claimed = λ h k. unfold refresh_entry in ground (arith, y, law, k, found, here);
              given_up = λ h. unfold refresh_entry in ground (arith, y, law, h, found, here);
            }
      ]
    ]

upsert_all-Grows :
    (is_name : String) (per_is : ImageState) (c : Consolidated) (flag : Option Bool) (j : String)
    → Grows
        (brings (λ e. true) j per_is)
        (brings is_mirrored j per_is)
        (seen (lookup j c.state) flag)
        (seen (lookup j (upsert_all is_name per_is c).state) flag)
unfolding upsert_all brings
upsert_all-Grows is_name [] c flag j = record {
  known = λ h k. k;
  claimed = λ h k. k;
  given_up = λ h. h;
}
upsert_all-Grows is_name ((dest, e) ∷ per_is) c flag j =
    let one = upsert-Grows is_name dest e c flag j in
    let rest = upsert_all-Grows is_name per_is (upsert is_name dest e c) flag j in
    record {
      known = λ h k. one.known (ground (arith, h)) (rest.known (ground (arith, h)) k);
      claimed = λ h k. one.claimed (ground (arith, h)) (rest.claimed (ground (arith, h)) k);
      given_up = λ h. rest.given_up (one.given_up h);
    }

brings-known :
    (resolved live : ImageState) (j : String)
    → brings (λ e. true) j (merge_worker_updates resolved live) ≡ brings (λ e. true) j resolved
unfolding merge_worker_updates update_entries brings
brings-known [] live j = refl
brings-known ((dest, r) ∷ resolved) live j = ground (arith, brings-known resolved live j)

adopted-mirrored :
    (r : ImageEntry) (live : Option ImageEntry)
    → is_mirrored r ≡ false
    → entry_has is_mirrored live ≡ false
    → is_mirrored (with_live r live) ≡ false
adopted-mirrored r none h k = h
adopted-mirrored r (some l) h k = ground (arith, h, k)

-- a resolved image is Mirrored only if the resolve has it so or a worker reported it meanwhile
brings-mirrored :
    (resolved live : ImageState) (j : String)
    → brings is_mirrored j resolved ≡ false
    → entry_has is_mirrored (lookup j live) ≡ false
    → brings is_mirrored j (merge_worker_updates resolved live) ≡ false
unfolding merge_worker_updates update_entries brings
brings-mirrored [] live j h k = refl
brings-mirrored ((dest, r) ∷ resolved) live j h k =
    let rest = brings-mirrored resolved live j (ground (arith, h)) k in
    elim (text-cases dest j) [
      | inr (n, _) ↦ ground (arith, n, rest)
      | inl (y, same) ↦
          let here : is_mirrored (with_live r (lookup dest live)) ≡ false =
            adopted-mirrored r (lookup dest live) (ground (arith, h, y))
              (subst (λ x. entry_has is_mirrored (lookup x live) ≡ false) (sym same) k) in
          ground (arith, rest, here)
    ]

merge_image_set-Allowed :
    (is_name : String) (resolved : ImageState) (m : MirrorManager) (j : String)
    → Allowed
        (brings (λ e. true) j resolved)
        (brings is_mirrored j resolved)
        (lifecycle j m)
        (lifecycle j (merge_image_set is_name (merge_worker_updates resolved m.image_state) m))
unfolding merge_resolved_into_consolidated
merge_image_set-Allowed is_name resolved m j =
    let per_is = merge_worker_updates resolved m.image_state in
    let grows =
      upsert_all-Grows is_name per_is (record { state = m.image_state; owners = m.owners })
        (lookup j m.mirrored) j in
    record {
      known = λ h k. grows.known (brings-known resolved m.image_state j ∙ h) k;
      claimed = λ h k. elim (Bool-cases (entry_has is_mirrored (lookup j m.image_state))) [
        | inl live ↦ ground (arith, live)
        | inr other ↦ grows.claimed (brings-mirrored resolved m.image_state j h other) k
      ];
      given_up = λ h k. grows.given_up h;
    }

set_catalog_digests-same :
    (is_name : String) (digests : Dict String) (m : MirrorManager) (j : String)
    → lifecycle j (noted_in_state (set_catalog_digests is_name digests m)) ≡ lifecycle j m
unfolding set_catalog_digests
set_catalog_digests-same is_name digests m j =
    if_both (λ r. lifecycle j (noted_in_state r) ≡ lifecycle j m)
      (maps_equal (digests_or_nil (lookup is_name m.catalog_digests)) digests)
      (record { manager = m; changed = false })
      (record {
        manager = record m { catalog_digests = insert is_name digests m.catalog_digests };
        changed = true;
      })
      refl refl

-- an allowed move, and then one that adds nothing
Allowed-then :
    {adding vouching : Bool} (a b c : Lifecycle)
    → Allowed adding vouching a b
    → Allowed false false b c
    → Allowed adding vouching a c
Allowed-then a b c p q = record {
  known = λ h k. p.known h (q.known refl k);
  claimed = λ h k. p.claimed h (q.claimed refl k);
  given_up = λ h k. q.given_up (p.given_up h (q.known refl k)) k;
}

recollected-Allowed :
    (recollect : Bool) (is_name : String) (m : MirrorManager) (j : String)
    → Allowed false false (lifecycle j m) (lifecycle j (recollected recollect is_name m))
recollected-Allowed true is_name m j = reset_failed_for_recollect-Allowed is_name m j
recollected-Allowed false is_name m j = Allowed-refl (lifecycle j m)

pub after_resolve-Allowed :
    (is_name : String) (recollect first : Bool) (digests : Dict String)
    (result : Option (ImageState × Bool)) (m : MirrorManager) (j : String)
    → Allowed
        (result_brings (λ e. true) j result)
        (result_brings is_mirrored j result)
        (lifecycle j m)
        (lifecycle j (after_resolve is_name recollect first digests result m))
after_resolve-Allowed is_name recollect first digests none m j = Allowed-refl (lifecycle j m)
after_resolve-Allowed is_name recollect first digests (some (new_state, changed)) m j =
    let m₁ = record m { status_dirty = true } in
    let merged = merge_image_set is_name (merge_worker_updates new_state m.image_state) m₁ in
    let m₂ = if changed || first then merged else m₁ in
    let m₃ = recollected recollect is_name m₂ in
    let P : MirrorManager → Type 0 = λ x.
      Allowed (brings (λ e. true) j new_state) (brings is_mirrored j new_state) (lifecycle j m)
        (lifecycle j x) in
    subst
      (Allowed (brings (λ e. true) j new_state) (brings is_mirrored j new_state) (lifecycle j m))
      (sym (set_catalog_digests-same is_name digests m₃ j))
      (Allowed-then (lifecycle j m) (lifecycle j m₂) (lifecycle j m₃)
        (if_both P (changed || first) merged m₁ (merge_image_set-Allowed is_name new_state m₁ j)
          (Allowed-refl (lifecycle j m)))
        (recollected-Allowed recollect is_name m₂ j))
