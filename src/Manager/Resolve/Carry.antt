-- ===== src/Manager/Resolve/Carry.antt =====
-- What is carried over from the cached state of an ImageSet.
use oc_mirror_operator.Base.{
  String, ◌≡◌, false, Option, none, some, ◌==◌, arith, eq_refl, Option-cases, Bool-cases, inl, inr,
  contains, ◌∙◌, for_each, for_each_present, for_each_absent,
}
use oc_mirror_operator.Base.Dict.{lookup, keys, Distinct, contains-keys, keys-Unique, lookup-insert}
use oc_mirror_operator.ImageState.Entry.{ImageEntry, ImageState, ImageOrigin}
use oc_mirror_operator.Manager.Resolve.{
  carry_dest, carried_from, carried_by_sig, carried_by_label, carry_over_by_origin_and_sig,
  carry_over_helm_entries,
}

-- what is there stays, and what is not there is carried
abbrev carried_into : Option ImageEntry → Option ImageEntry → Option ImageEntry
carried_into none new = new
carried_into (some e) new = some e

module _ (carried : ImageEntry → Option ImageEntry) (src : ImageState) where
  carry_elsewhere :
      (d j : String) (dst : ImageState)
      → (d == j) ≡ false
      → lookup j (carry_dest carried src d dst) ≡ lookup j dst
  unfolding carry_dest
  carry_elsewhere d j dst other = elim (Option-cases (carried_from carried (lookup d src))) [
    | inl missing ↦ ground arith
    | inr (e, found) ↦ ground (arith, lookup-insert d j e dst)
  ]

  carry_here :
      (d : String) (dst : ImageState)
      → lookup d (carry_dest carried src d dst)
        ≡ carried_into (lookup d dst) (carried_from carried (lookup d src))
  unfolding carry_dest
  carry_here d dst = elim (Option-cases (carried_from carried (lookup d src))) [
    | inl missing ↦ ground arith
    | inr (e, found) ↦ ground (arith, eq_refl d, lookup-insert d d e dst)
  ]

  carry_all :
      (dst : ImageState) (j : String)
      → Distinct src
      → lookup j (for_each (carry_dest carried src) (keys src) dst)
        ≡ carried_into (lookup j dst) (carried_from carried (lookup j src))
  carry_all dst j distinct = elim (Bool-cases (contains (keys src) j)) [
    | inl present ↦
        for_each_present (carry_dest carried src) lookup carry_elsewhere
          (λ d here. carried_into here (carried_from carried (lookup d src))) carry_here (keys src)
          dst j (keys-Unique src distinct) present
    | inr absent ↦
        for_each_absent (carry_dest carried src) lookup carry_elsewhere (keys src) dst j absent
        ∙ ground (arith, contains-keys src j)
  ]

-- A carry-over keeps every entry that is there already, and adds, for a destination that is not
-- there, the cached entry where its origin and signature (its origin and label, for Helm) fit.
pub carry_over_lookup :
    (src dst : ImageState) (origin : ImageOrigin) (sig origin_ref j : String)
    → Distinct src
    → (lookup j (carry_over_by_origin_and_sig src dst origin sig origin_ref)
        ≡ carried_into
            (lookup j dst)
            (carried_from (carried_by_sig origin sig origin_ref) (lookup j src)))
      × (lookup j (carry_over_helm_entries src dst origin origin_ref)
          ≡ carried_into
              (lookup j dst)
              (carried_from (carried_by_label origin origin_ref) (lookup j src)))
unfolding carry_over_by_origin_and_sig carry_over_helm_entries
carry_over_lookup src dst origin sig origin_ref j distinct = (
  carry_all (carried_by_sig origin sig origin_ref) src dst j distinct,
  carry_all (carried_by_label origin origin_ref) src dst j distinct,
)
