-- ===== src/Base/Loops.antt =====
-- Go's `for key := range m` with a body that changes the state: the body is run once for each key,
-- in the order given. When the body touches what is seen of its own key only, what is seen of a
-- key after the loop is what one run of the body makes of it.
use oc_mirror_operator.Base.Lists.{contains, Unique}
use oc_mirror_operator.Base.Tests.{text-cases}
use Prim.Native.String.{String}
use mathlib.Core.Path.{◌≡◌, refl, ◌∙◌, subst, ap}
use mathlib.Core.Logic.{inl, inr}
use mathlib.Core.Bool.{true, false}
use mathlib.Core.List.{List, [], ◌∷◌}
use native.Mathlib.Omega.{arith}
use text.Mathlib.Text.{◌==◌}

unfoldable pub for_each {ℓ} : {S : Type ℓ} → (String → S → S) → List String → S → S
for_each step [] s = s
for_each step (d ∷ ds) s = for_each step ds (step d s)

module _ {ℓ κ} {S : Type ℓ} {L : Type κ} (step : String → S → S) (view : String → S → L)
    (elsewhere : (d j : String) (s : S) → (d == j) ≡ false → view j (step d s) ≡ view j s) where
  pub for_each_absent :
      (ds : List String) (s : S) (j : String)
      → contains ds j ≡ false
      → view j (for_each step ds s) ≡ view j s
  unfolding for_each
  for_each_absent [] s j absent = refl
  for_each_absent (d ∷ ds) s j absent =
      for_each_absent ds (step d s) j (ground arith) ∙ elsewhere d j s (ground arith)

  pub for_each_present :
      (f : String → L → L) (here : (d : String) (s : S) → view d (step d s) ≡ f d (view d s))
      (ds : List String) (s : S) (j : String)
      → Unique ds
      → contains ds j ≡ true
      → view j (for_each step ds s) ≡ f j (view j s)
  unfolding for_each
  for_each_present f here [] s j u present = cc
  for_each_present f here (d ∷ ds) s j (fresh, u) present = elim (text-cases d j) [
    | inl (_, same) ↦
        let gone : contains ds j ≡ false = subst (λ x. contains ds x ≡ false) same fresh in
        for_each_absent ds (step d s) j gone
        ∙ subst (λ x. view x (step d s) ≡ f x (view x s)) same (here d s)
    | inr (n, _) ↦
        for_each_present f here ds (step d s) j u (ground arith) ∙ ap (f j) (elsewhere d j s n)
  ]

-- what every run of the body keeps, the loop keeps
pub for_each_keeps {ℓ κ} :
    {S : Type ℓ} (step : String → S → S) (P : S → Type κ)
    (keeps : (d : String) (s : S) → P s → P (step d s)) (ds : List String) (s : S)
    → P s
    → P (for_each step ds s)
unfolding for_each
for_each_keeps step P keeps [] s p = p
for_each_keeps step P keeps (d ∷ ds) s p = for_each_keeps step P keeps ds (step d s) (keeps d s p)
