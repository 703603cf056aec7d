-- ===== src/Planner/Order.antt =====
-- The greedy order of a batch holds the same images.
use oc_mirror_operator.Base.{
  ℕ, zero, suc, ◌<◌, ◌≤◌, String, ◌≡◌, refl, true, false, List, [], ◌∷◌, ◌++◌, arith, if◌then◌else◌,
  eqb, ltb, length, Bool-cases, inl, inr, subst, sym, ap, ◌∙◌, if_both,
}
use mathlib.Core.List.{Perm, Memᴰ}
use mathlib.Core.List.Perm
use mathlib.Core.List.Memᴰ
use oc_mirror_operator.Manager.State.{BatchItem}
use oc_mirror_operator.Planner.{
  ImageBlobInfo, blob_infos, blob_freq, is_better, best_of, without_index, greedy, items_of,
  plan_mirror_order,
}

-- the indexes are apart
abbrev pub Fresh : ℕ → List ImageBlobInfo → Type 0
Fresh i [] = Unit
Fresh i (info ∷ infos) = (eqb info.index i ≡ false) × Fresh i infos

abbrev pub Indexed : List ImageBlobInfo → Type 0
Indexed [] = Unit
Indexed (info ∷ infos) = Fresh info.index infos × Indexed infos

best_of-Mem :
    (freq : String → ℕ) (uploaded : List String) (best : ImageBlobInfo) (infos : List ImageBlobInfo)
    → Memᴰ (best_of freq uploaded best infos) (best ∷ infos)
unfolding best_of
best_of-Mem freq uploaded best [] = Memᴰ.head refl
best_of-Mem freq uploaded best (info ∷ infos) =
    let better = is_better freq uploaded info best in
    let new = if better then info else best in
    elim (Memᴰ.cases_cons (best_of-Mem freq uploaded new infos)) [
      | inr later ↦ Memᴰ.tail (Memᴰ.tail later)
      | inl now ↦ elim (Bool-cases better) [
        | inl y ↦ Memᴰ.tail (Memᴰ.head (now ∙ ap (λ b. if b then info else best) y))
        | inr n ↦ Memᴰ.head (now ∙ ap (λ b. if b then info else best) n)
      ]
    ]

without_index-Fresh :
    (i : ℕ) (infos : List ImageBlobInfo) → Fresh i infos → without_index i infos ≡ infos
unfolding without_index
without_index-Fresh i [] f = refl
without_index-Fresh i (info ∷ infos) (other, f) =
    ground (arith, other, without_index-Fresh i infos f)

Fresh-other :
    (i : ℕ) (infos : List ImageBlobInfo) (b : ImageBlobInfo)
    → Fresh i infos
    → Memᴰ b infos
    → eqb b.index i ≡ false
Fresh-other i [] b f m = absurd (Memᴰ.not-nil m)
Fresh-other i (info ∷ infos) b (other, f) m = elim (Memᴰ.cases_cons m) [
  | inl e ↦ ap (λ x. eqb x.index i) e ∙ other
  | inr t ↦ Fresh-other i infos b f t
]

-- taking the chosen image out
module _ (b : ImageBlobInfo) where
  without_index-head :
      (info : ImageBlobInfo) (infos : List ImageBlobInfo)
      → eqb info.index b.index ≡ true
      → without_index b.index (info ∷ infos) ≡ without_index b.index infos
  unfolding without_index
  without_index-head info infos y = ground (arith, y)

  without_index-tail :
      (info : ImageBlobInfo) (infos : List ImageBlobInfo)
      → eqb info.index b.index ≡ false
      → without_index b.index (info ∷ infos) ≡ info ∷ without_index b.index infos
  unfolding without_index
  without_index-tail info infos n = ground (arith, n)

  without_index-Perm :
      (infos : List ImageBlobInfo)
      → Indexed infos
      → Memᴰ b infos
      → Perm infos (b ∷ without_index b.index infos)
  without_index-Perm [] d m = absurd (Memᴰ.not-nil m)
  without_index-Perm (info ∷ infos) (f, d) m = elim (Memᴰ.cases_cons m) [
    | inl e ↦
        let same : without_index b.index (info ∷ infos) ≡ infos =
          without_index-head info infos (ground (arith, ap (λ x. x.index) e))
          ∙ without_index-Fresh b.index infos (subst (λ x. Fresh x.index infos) (sym e) f) in
        subst (λ x. Perm (info ∷ infos) (x ∷ without_index b.index (info ∷ infos))) (sym e)
          (subst (λ w. Perm (info ∷ infos) (info ∷ w)) (sym same) (Perm.refl (info ∷ infos)))
    | inr t ↦
        let w = without_index b.index infos in
        let other : eqb info.index b.index ≡ false =
          ground (arith, Fresh-other info.index infos b f t) in
        subst (λ x. Perm (info ∷ infos) (b ∷ x)) (sym (without_index-tail info infos other))
          (Perm.trans (Perm.cons info (without_index-Perm infos d t)) (Perm.swap b info w))
  ]

  without_index-shorter :
      (infos : List ImageBlobInfo) → length (without_index b.index infos) ≤ length infos
  unfolding without_index
  without_index-shorter [] = omega arith
  without_index-shorter (info ∷ infos) = ground (arith, without_index-shorter infos)

  length-without_index :
      (infos : List ImageBlobInfo)
      → Memᴰ b infos
      → suc (length (without_index b.index infos)) ≤ length infos
  length-without_index [] m = absurd (Memᴰ.not-nil m)
  length-without_index (info ∷ infos) m = elim (Bool-cases (eqb info.index b.index)) [
    | inl y ↦
        omega (arith, ap length (without_index-head info infos y), without_index-shorter infos)
    | inr n ↦ elim (Memᴰ.cases_cons m) [
      | inl e ↦ absurd (ground (arith, n, ap (λ x. x.index) e))
      | inr t ↦
          omega (arith, ap length (without_index-tail info infos n), length-without_index infos t)
    ]
  ]

  Fresh-without_index :
      (i : ℕ) (infos : List ImageBlobInfo) → Fresh i infos → Fresh i (without_index b.index infos)
  unfolding without_index
  Fresh-without_index i [] f = _
  Fresh-without_index i (info ∷ infos) (other, f) =
      if_both (Fresh i) (eqb info.index b.index) _ _ (Fresh-without_index i infos f)
        (other, Fresh-without_index i infos f)

  Indexed-without_index :
      (infos : List ImageBlobInfo) → Indexed infos → Indexed (without_index b.index infos)
  unfolding without_index
  Indexed-without_index [] d = _
  Indexed-without_index (info ∷ infos) (f, d) =
      if_both Indexed (eqb info.index b.index) _ _ (Indexed-without_index infos d)
        (Fresh-without_index info.index infos f, Indexed-without_index infos d)

greedy-Perm :
    (freq : String → ℕ) (fuel : ℕ) (uploaded : List String) (infos : List ImageBlobInfo)
    → length infos ≤ fuel
    → Indexed infos
    → Perm infos (greedy freq fuel uploaded infos)
unfolding greedy
greedy-Perm freq fuel uploaded [] h d = Perm.nil
greedy-Perm freq zero uploaded (info ∷ infos) h d = absurd (omega arith)
greedy-Perm freq (suc fuel) uploaded (info ∷ infos) h d =
    let b = best_of freq uploaded info infos in
    let m = best_of-Mem freq uploaded info infos in
    Perm.trans (without_index-Perm b (info ∷ infos) d m) (
      Perm.cons b (
        greedy-Perm freq fuel (b.blobs ++ uploaded) (without_index b.index (info ∷ infos))
          (omega (arith, length-without_index b (info ∷ infos) m, h))
          (Indexed-without_index b (info ∷ infos) d)))

blob_infos-Fresh :
    (extract : String → List String) (i j : ℕ) (items : List BatchItem)
    → i < j
    → Fresh i (blob_infos extract j items)
unfolding blob_infos
blob_infos-Fresh extract i j [] h = _
blob_infos-Fresh extract i j (item ∷ items) h =
    (ground (arith, h), blob_infos-Fresh extract i (suc j) items (omega (arith, h)))

blob_infos-Indexed :
    (extract : String → List String) (i : ℕ) (items : List BatchItem)
    → Indexed (blob_infos extract i items)
unfolding blob_infos
blob_infos-Indexed extract i [] = _
blob_infos-Indexed extract i (item ∷ items) = (
  blob_infos-Fresh extract i (suc i) items (omega arith),
  blob_infos-Indexed extract (suc i) items,
)

items_of-blob_infos :
    (extract : String → List String) (i : ℕ) (items : List BatchItem)
    → items_of (blob_infos extract i items) ≡ items
unfolding blob_infos
items_of-blob_infos extract i [] = refl
items_of-blob_infos extract i (item ∷ items) =
    ap (λ x. item ∷ x) (items_of-blob_infos extract (suc i) items)

length-blob_infos :
    (extract : String → List String) (i : ℕ) (items : List BatchItem)
    → length (blob_infos extract i items) ≡ length items
unfolding blob_infos
length-blob_infos extract i [] = refl
length-blob_infos extract i (item ∷ items) = ap suc (length-blob_infos extract (suc i) items)

-- Whatever blobs the manifests list, the planned order holds every image of the batch exactly as
-- often as the batch, each source still with its destination: no image is lost or doubled, and the
-- rounds always suffice.
pub plan_mirror_order-Perm :
    (extract : String → List String) (items : List BatchItem)
    → Perm items (plan_mirror_order extract items)
unfolding plan_mirror_order
plan_mirror_order-Perm extract items =
    let infos = blob_infos extract 0 items in
    let planned = greedy (blob_freq infos) (length items) [] infos in
    let p =
      greedy-Perm (blob_freq infos) (length items) [] infos
        (omega (arith, length-blob_infos extract 0 items)) (blob_infos-Indexed extract 0 items) in
    if_both (Perm items) (ltb 1 (length items)) (items_of planned) items
      (subst (λ x. Perm x (items_of planned)) (items_of-blob_infos extract 0 items)
        (Perm.map (λ info. info.item) p))
      (Perm.refl items)
