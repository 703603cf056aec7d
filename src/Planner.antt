-- ===== src/Planner.antt =====
-- `PlanMirrorOrder` (pkg/mirror/planner.go): the greedy order of a batch. The blobs of an image are
-- a parameter, as its manifest is fetched from a registry; there are none for a chart, and none
-- when the manifest cannot be read.
pub mod Order
use oc_mirror_operator.Base.{
  ℕ, zero, suc, ◌+◌, String, Bool, true, false, List, [], ◌∷◌, ◌++◌, ◌&&◌, ◌||◌, not, if◌then◌else◌,
  ltb, eqb, contains, length, map,
}
use oc_mirror_operator.Manager.State.{BatchItem}
use oc_mirror_operator.Worker.{is_chart_source}

-- `imageBlobInfo`, with the item at its index
pub record ImageBlobInfo : Type 0 where
  pub index : ℕ
  pub blobs : List String
  pub item : BatchItem

-- phase 1
unfoldable pub blob_infos : (String → List String) → ℕ → List BatchItem → List ImageBlobInfo
blob_infos extract i [] = []
blob_infos extract i (item ∷ items) =
    record {
      index = i;
      blobs = if is_chart_source item.source then [] else extract item.source;
      item = item;
    }
    ∷ blob_infos extract (suc i) items

-- phase 2: in how many images a blob is
unfoldable pub blob_freq : List ImageBlobInfo → String → ℕ
blob_freq [] blob = 0
blob_freq (info ∷ infos) blob =
    let rest = blob_freq infos blob in if contains info.blobs blob then suc rest else rest

abbrev pub is_empty_list : List String → Bool
is_empty_list [] = true
is_empty_list (x ∷ xs) = false

unfoldable pub freq_sum : (String → ℕ) → List String → ℕ
freq_sum freq [] = 0
freq_sum freq (blob ∷ blobs) = freq blob + freq_sum freq blobs

-- the score and the tie breaker when some blobs are uploaded
unfoldable pub covered : (String → ℕ) → List String → List String → ℕ × ℕ
covered freq uploaded [] = (0, 0)
covered freq uploaded (blob ∷ blobs) =
    let (score, tie_breaker) = covered freq uploaded blobs in
    if contains uploaded blob then (suc score, tie_breaker) else (score, freq blob + tie_breaker)

abbrev pub score_of : (String → ℕ) → List String → ImageBlobInfo → ℕ × ℕ
score_of freq uploaded info =
    if is_empty_list uploaded
    then (freq_sum freq info.blobs, 0)
    else covered freq uploaded info.blobs

-- the test of the inner loop, for an image against the best one so far
abbrev pub is_better : (String → ℕ) → List String → ImageBlobInfo → ImageBlobInfo → Bool
is_better freq uploaded info best =
    let (score, tie_breaker) = score_of freq uploaded info in
    let (best_score, best_tie_breaker) = score_of freq uploaded best in
    ltb best_score score
    || (eqb score best_score && ltb best_tie_breaker tie_breaker)
    || (eqb score best_score && eqb tie_breaker best_tie_breaker && ltb info.index best.index)

unfoldable pub best_of :
    (String → ℕ) → List String → ImageBlobInfo → List ImageBlobInfo → ImageBlobInfo
best_of freq uploaded best [] = best
best_of freq uploaded best (info ∷ infos) =
    best_of freq uploaded (if is_better freq uploaded info best then info else best) infos

-- `delete(remaining, bestIdx)`
unfoldable pub without_index : ℕ → List ImageBlobInfo → List ImageBlobInfo
without_index i [] = []
without_index i (info ∷ infos) =
    let rest = without_index i infos in if eqb info.index i then rest else info ∷ rest

-- phase 3; a round for each image
unfoldable pub greedy : (String → ℕ) → ℕ → List String → List ImageBlobInfo → List ImageBlobInfo
greedy freq fuel uploaded [] = []
greedy freq zero uploaded (info ∷ infos) = []
greedy freq (suc fuel) uploaded (info ∷ infos) =
    let best = best_of freq uploaded info infos in
    best ∷ greedy freq fuel (best.blobs ++ uploaded) (without_index best.index (info ∷ infos))

abbrev pub items_of : List ImageBlobInfo → List BatchItem
items_of infos = map (λ info. info.item) infos

unfoldable pub plan_mirror_order : (String → List String) → List BatchItem → List BatchItem
plan_mirror_order extract items =
    let infos = blob_infos extract 0 items in
    if ltb 1 (length items)
    then items_of (greedy (blob_freq infos) (length items) [] infos)
    else items
