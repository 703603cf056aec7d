-- ===== src/ImageState/SharedIndex.antt =====
-- `SharedIndex` (pkg/mirror/imagestate/imagestate.go): which destinations more than one ImageSet
-- needs, and by which ImageSets. `out := names[:0]` reuses the list that only the index holds.
use oc_mirror_operator.Base.{
  ◌≤◌, String, ◌≡◌, refl, inl, inr, Bool, true, false, List, [], ◌∷◌, ◌++◌, none, some, arith, leb,
  if◌then◌else◌, ◌==◌, eq_iff, length, contains, without, Unique, without-Unique, without_absent,
  without-append, Bool-cases, Option, append-nil, subst,
}
use mathlib.Core.Option.{some-injective}
use oc_mirror_operator.Base.Dict.{
  Dict, lookup, remove, insert, lookup-remove, lookup-insert, dict_laws,
}

abbrev pub SharedIndex : Type 0
SharedIndex = Dict (List String)

-- a missing key reads as the nil slice
abbrev list_or_nil : Option (List String) → List String
list_or_nil none = []
list_or_nil (some ns) = ns

unfoldable pub names : SharedIndex → String → List String
names idx dest = list_or_nil (lookup dest idx)

unfoldable pub is_shared : SharedIndex → String → Bool
unfolding names
is_shared idx dest = leb 2 (length (names idx dest))

unfoldable pub add_shared_ref : SharedIndex → String → String → SharedIndex
unfolding names
add_shared_ref idx dest image_set =
    if contains (names idx dest) image_set
    then idx
    else insert dest (names idx dest ++ image_set ∷ []) idx

unfoldable pub remove_shared_ref : SharedIndex → String → String → SharedIndex
unfolding names without
remove_shared_ref idx dest image_set =
    let out = without image_set (names idx dest) in
    if leb (length out) 1 then remove dest idx else insert dest out idx

-- every listed destination has two owners at least, each once
abbrev pub IsIndex : SharedIndex → Type 0
IsIndex idx =
    (dest : String) (ns : List String) → lookup dest idx ≡ some ns → (2 ≤ length ns) × Unique ns

names-Unique : (idx : SharedIndex) (dest : String) → IsIndex idx → Unique (names idx dest)
unfolding names
names-Unique idx dest h = go (lookup dest idx) (h dest)
  where
    go :
        (o : Option (List String))
        → ((ns : List String) → o ≡ some ns → (2 ≤ length ns) × Unique ns)
        → Unique (list_or_nil o)
    go none f = tt
    go (some ns) f = (f ns refl).1

-- what the branch of a test lists is well formed if both branches are
listed_if :
    (b : Bool) (kept : List String) (o : Option (List String)) (ns : List String)
    → ((2 ≤ length kept) × Unique kept)
    → (o ≡ some ns → (2 ≤ length ns) × Unique ns)
    → (if b then some kept else o) ≡ some ns
    → (2 ≤ length ns) × Unique ns
listed_if true kept o ns good h e =
    subst (λ l. (2 ≤ length l) × Unique l) (some-injective _ _ e) good
listed_if false kept o ns good h e = h e

-- Removing an ImageSet keeps the index well formed: whatever is left listed still has at least two
-- different owners.
pub remove_shared_ref-IsIndex :
    (idx : SharedIndex) (dest image_set : String)
    → IsIndex idx
    → IsIndex (remove_shared_ref idx dest image_set)
unfolding remove_shared_ref
remove_shared_ref-IsIndex idx dest image_set h j ns =
    let out = without image_set (names idx dest) in
    let u : Unique out = without-Unique image_set (names idx dest) (names-Unique idx dest h) in
    elim (Bool-cases (leb (length out) 1)) [
      | inl small ↦ rw (small, lookup-remove) (λ e. h j ns (ground arith))
      | inr large ↦
          rw (large, lookup-insert)
            (listed_if (dest == j) out (lookup j idx) ns (ground arith, u) (h j ns))
    ]

-- Recording a further ImageSet for a destination that is already shared and removing it again gives
-- back the owners of every destination.
pub remove-add_shared_ref :
    (idx : SharedIndex) (dest image_set j : String)
    → contains (names idx dest) image_set ≡ false
    → is_shared idx dest ≡ true
    → names (remove_shared_ref (add_shared_ref idx dest image_set) dest image_set) j ≡ names idx j
unfolding add_shared_ref remove_shared_ref is_shared
remove-add_shared_ref idx dest image_set j fresh shared =
    let many : leb (length (names idx dest)) 1 ≡ false = ground arith in
    rw fresh (
      simp (dict_laws, without-append, append-nil)
        (rw (without_absent image_set (names idx dest) fresh)
          (rw many (simp lookup-insert (ground (arith, eq_iff dest j))))))
