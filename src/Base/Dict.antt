-- ===== src/Base/Dict.antt =====
-- Go maps with string keys. The order of the entries is the order in which one `range` loop of the
-- program visits them; Go leaves it open, so a theorem about a loop holds for every order. A map
-- that the program builds has each key once (`Distinct`); the laws of reads hold without that.
use Prim.Native.String.{String}
use mathlib.Core.Path.{◌≡◌, refl}
use mathlib.Core.Bool.{◌||◌}
use mathlib.Core.Logic.{inl, inr}
use mathlib.Core.Option.{Option, none, some}
use mathlib.Core.List.{List, [], ◌∷◌}
use native.Mathlib.Omega.{arith}
use text.Mathlib.Text.{◌==◌}
use text.Mathlib.TextEquality.{eq_iff}
use text.Mathlib.TextPositions.{eq_refl}
use oc_mirror_operator.Base.Lists.{contains, Unique}
use oc_mirror_operator.Base.Tests.{is_some, if◌then◌else◌, and_then, Bool-cases}

abbrev pub Dict {ℓ} : Type ℓ → Type ℓ
Dict V = List (String × V)

module _ {ℓ} {V : Type ℓ} where
  -- v, ok := m[k]
  unfoldable pub lookup : String → Dict V → Option V
  lookup dest [] = none
  lookup dest ((key, value) ∷ rest) = if key == dest then some value else lookup dest rest

  -- delete(m, k)
  unfoldable pub remove : String → Dict V → Dict V
  remove k [] = []
  remove k ((j, v) ∷ m) = let rest = remove k m in if j == k then rest else (j, v) ∷ rest

  -- m[k] = v
  unfoldable pub insert : String → V → Dict V → Dict V
  insert dest new [] = (dest, new) ∷ []
  insert dest new ((key, value) ∷ rest) =
      let kept = insert dest new rest in
      if key == dest then (dest, new) ∷ rest else (key, value) ∷ kept

  pub lookup-remove :
      (k j : String) (m : Dict V) → lookup j (remove k m) ≡ (if k == j then none else lookup j m)
  unfolding lookup remove
  lookup-remove k j [] = ground arith
  lookup-remove k j ((i, v) ∷ m) =
      ground (arith, lookup-remove k j m, eq_iff i k, eq_iff i j, eq_iff k j)

  pub lookup-insert :
      (dest other : String) (new : V) (d : Dict V)
      → lookup other (insert dest new d) ≡ (if dest == other then some new else lookup other d)
  unfolding lookup insert
  lookup-insert dest other new [] = ground arith
  lookup-insert dest other new ((key, value) ∷ rest) = ground (
    arith,
    lookup-insert dest other new rest,
    eq_iff key dest,
    eq_iff key other,
    eq_iff dest other,
  )

  pub lookup-nil : (k : String) → ◌≡◌ {A = Option V} (lookup k []) none
  unfolding lookup
  lookup-nil k = refl

  -- writing what is there changes nothing
  pub insert_same : (k : String) (v : V) (m : Dict V) → lookup k m ≡ some v → insert k v m ≡ m
  unfolding lookup insert
  insert_same k v [] h = ground arith
  insert_same k v ((i, w) ∷ m) h = ground (arith, eq_iff i k, insert_same k v m)

  pub remove_absent : (k : String) (m : Dict V) → lookup k m ≡ none → remove k m ≡ m
  unfolding lookup remove
  remove_absent k [] h = refl
  remove_absent k ((i, w) ∷ m) h = ground (arith, remove_absent k m)

  -- each key once
  abbrev pub Distinct : Dict V → Type ℓ
  Distinct [] = Unit
  Distinct ((k, v) ∷ m) = (lookup k m ≡ none) × Distinct m

  pub insert-Distinct : (k : String) (v : V) (m : Dict V) → Distinct m → Distinct (insert k v m)
  unfolding insert lookup
  insert-Distinct k v [] d = (refl, tt)
  insert-Distinct k v ((i, w) ∷ m) (fresh, d) = elim (Bool-cases (i == k)) [
    | inl e ↦ ground (arith, eq_iff i k)
    | inr n ↦
        rw n
          (ground (arith, lookup-insert k i v m, eq_iff k i, eq_iff i k), insert-Distinct k v m d)
  ]

  pub remove-Distinct : (k : String) (m : Dict V) → Distinct m → Distinct (remove k m)
  unfolding remove
  remove-Distinct k [] d = tt
  remove-Distinct k ((i, w) ∷ m) (fresh, d) = elim (Bool-cases (i == k)) [
    | inl e ↦ rw e (remove-Distinct k m d)
    | inr n ↦ rw n (ground (arith, lookup-remove k i m), remove-Distinct k m d)
  ]

  -- the keys, in the order of the loop
  unfoldable pub keys : Dict V → List String
  keys [] = []
  keys ((k, v) ∷ m) = k ∷ keys m

pub ruleset dict_laws = (lookup-nil, lookup-remove, lookup-insert, eq_refl)

module _ {ℓ κ} {V : Type ℓ} {W : Type κ} where
  -- a loop that keeps, changes or drops each entry
  unfoldable pub update_entries : (String → V → Option W) → Dict V → Dict W
  unfolding remove
  update_entries f [] = []
  update_entries f ((k, v) ∷ m) =
      let rest = update_entries f m in
      elim (f k v) [ none ↦ remove k rest | some w ↦ (k, w) ∷ rest ]

  pub lookup-update_entries :
      (f : String → V → Option W) (j : String) (m : Dict V)
      → lookup j (update_entries f m) ≡ and_then (lookup j m) (f j)
  unfolding lookup update_entries
  lookup-update_entries f j [] = refl
  lookup-update_entries f j ((i, v) ∷ m) =
      ground
        (arith, lookup-update_entries f j m, lookup-remove i j (update_entries f m), eq_iff i j)

module _ {ℓ} {V : Type ℓ} where
  pub contains-keys : (m : Dict V) (j : String) → contains (keys m) j ≡ is_some (lookup j m)
  unfolding keys lookup
  contains-keys [] j = refl
  contains-keys ((k, v) ∷ m) j = ground (arith, contains-keys m j)

  pub keys-Unique : (m : Dict V) → Distinct m → Unique (keys m)
  unfolding keys
  keys-Unique [] d = tt
  keys-Unique ((k, v) ∷ m) (fresh, d) = (rw contains-keys (rw fresh refl), keys-Unique m d)

  pub is_some-lookup-insert :
      (k j : String) (v : V) (m : Dict V)
      → is_some (lookup j (insert k v m)) ≡ k == j || is_some (lookup j m)
  is_some-lookup-insert k j v m = rw lookup-insert (ground arith)
