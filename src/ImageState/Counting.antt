-- ===== src/ImageState/Counting.antt =====
-- `Counts`: the totals that the status of an ImageSet and of a MirrorTarget publish.
use oc_mirror_operator.Base.{
  ℕ, suc, ◌+◌, ◌≡◌, Bool, [], ◌∷◌, arith, if◌then◌else◌, length, not, ◌&&◌,
}
use oc_mirror_operator.ImageState.Entry.{ImageEntry, ImageState, state_mirrored, state_eq}

pub record Tally : Type 0 where
  pub total : ℕ
  pub mirrored : ℕ
  pub pending : ℕ
  pub failed : ℕ

-- one round of the loop of `Counts`
count_entry : ImageEntry → Tally → Tally
count_entry e t =
    if state_eq e.state state_mirrored
    then record t { mirrored = t.mirrored + 1 }
    else if e.permanently_failed
    then record t { failed = t.failed + 1 }
    else record t { pending = t.pending + 1 }

count_loop : ImageState → Tally → Tally
count_loop [] t = t
count_loop ((_, e) ∷ s) t = count_loop s (count_entry e t)

unfoldable pub counts : ImageState → Tally
unfolding count_loop count_entry
counts s = count_loop s (record { total = length s; mirrored = 0; pending = 0; failed = 0 })

-- how many entries of a state satisfy a test
abbrev pub count_if : (ImageEntry → Bool) → ImageState → ℕ
count_if p [] = 0
count_if p ((_, e) ∷ s) = let rest = count_if p s in if p e then suc rest else rest

abbrev pub is_mirrored : ImageEntry → Bool
is_mirrored e = state_eq e.state state_mirrored

count_loop_lem :
    (s : ImageState) (t : Tally)
    → let r = count_loop s t in
      (r.total ≡ t.total)
      × (r.mirrored ≡ t.mirrored + count_if is_mirrored s)
      × (r.failed ≡ t.failed + count_if (λ e. not (is_mirrored e) && e.permanently_failed) s)
      × (r.mirrored + r.failed + r.pending ≡ t.mirrored + t.failed + t.pending + length s)
unfolding count_loop count_entry
count_loop_lem [] t = omega arith
count_loop_lem ((d, e) ∷ s) t = ground (arith, count_loop_lem s (count_entry e t))

-- The total is the number of entries and is the sum of the three other counts; `mirrored` counts
-- the entries whose state is Mirrored, and `failed` those that are permanently failed and not
-- Mirrored, whatever their state.
pub counts_partition :
    (s : ImageState)
    → let r = counts s in
      (r.total ≡ length s)
      × (r.total ≡ r.mirrored + r.pending + r.failed)
      × (r.mirrored ≡ count_if is_mirrored s)
      × (r.failed ≡ count_if (λ e. not (is_mirrored e) && e.permanently_failed) s)
unfolding counts
counts_partition s =
    omega
      (arith, count_loop_lem s (record { total = length s; mirrored = 0; pending = 0; failed = 0 }))
