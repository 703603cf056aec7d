-- ===== src/Release/Select/Bounds.antt =====
-- What the resolution of a channel's nodes selects.
use oc_mirror_operator.Base.{
  ℕ, suc, ◌+◌, String, ◌≡◌, ◌≢◌, ◌⊎◌, ◌↔◌, refl, Bool, true, false, Option, none, some, List, [],
  ◌∷◌, ◌&&◌, ◌==◌, arith, eq_iff, Option-cases, Bool-cases, inl, inr, subst, sym, get_elem?, ap,
}
use mathlib.Core.List.{Memᴰ}
use mathlib.Core.List.Memᴰ
use oc_mirror_operator.Base.Dict.{Dict, lookup, insert, lookup-insert}
use oc_mirror_operator.Release.{Node, Graph}
use oc_mirror_operator.Release.Path.{version_index}
use oc_mirror_operator.Release.Select.{
  nodes_where, passes, resolved, refused, nodes_between, resolve_release_nodes, unparsable_min,
  unparsable_max,
}

-- the index of a version points at a node with that version
pub version_index-get :
    (before : ℕ) (all : ℕ → Option Node) (nodes : List Node) (index : Dict ℕ) (version : String)
    (i : ℕ)
    → ((k : ℕ) → all (before + k) ≡ get_elem? nodes k)
    → ((j : ℕ)
        → lookup version index ≡ some j
        → (node : Node) × (all j ≡ some node) × (node.version ≡ version))
    → lookup version (version_index before nodes index) ≡ some i
    → (node : Node) × (all i ≡ some node) × (node.version ≡ version)
unfolding version_index get_elem?
version_index-get before all [] index version i same old h = old i h
version_index-get before all (node ∷ nodes) index version i same old h =
    version_index-get (suc before) all nodes (insert node.version before index) version i
      (λ k. subst (λ x. all x ≡ get_elem? nodes k) (omega arith) (same (suc k)))
      (λ j e. elim (Bool-cases (node.version == version)) [
        | inl hit ↦
            let at : all before ≡ some node =
              subst (λ x. all x ≡ some node) (omega arith) (same 0) in
            (
              node,
              ground (arith, at, lookup-insert node.version version before index),
              (eq_iff node.version version).0 hit,
            )
        | inr miss ↦ old j (ground (arith, lookup-insert node.version version before index))
      ])
      h

-- the nodes of a bounded selection are exactly those whose version parses and passes
pub mem-nodes_where :
    {V : Type 0} (parse_tolerant : String → Option V) (gte gt : V → V → Bool) (test : V → Bool)
    (nodes : List Node) (node : Node)
    → Memᴰ node (nodes_where parse_tolerant gte gt test nodes)
      ↔ (Memᴰ node nodes × (passes parse_tolerant gte gt test (parse_tolerant node.version) ≡ true))
unfolding nodes_where
mem-nodes_where parse_tolerant gte gt test [] node =
    (λ m. absurd (Memᴰ.not-nil m), λ (m, _). absurd (Memᴰ.not-nil m))
mem-nodes_where parse_tolerant gte gt test (x ∷ nodes) node =
    let rest = mem-nodes_where parse_tolerant gte gt test nodes node in
    elim (Bool-cases (passes parse_tolerant gte gt test (parse_tolerant x.version))) [
      | inl hit ↦ rw hit (
        λ m. elim (Memᴰ.cases_cons m) [
          | inl e ↦ (
            Memᴰ.head e,
            subst (λ y. passes parse_tolerant gte gt test (parse_tolerant y.version) ≡ true) (sym e)
                hit,
          )
          | inr t ↦ (Memᴰ.tail (rest.0 t).0, (rest.0 t).1)
        ],
        λ (m, p). elim (Memᴰ.cases_cons m) [
          | inl e ↦ Memᴰ.head e
          | inr t ↦ Memᴰ.tail (rest.1 (t, p))
        ],
      )
      | inr miss ↦ rw miss (
        λ m. (Memᴰ.tail (rest.0 m).0, (rest.0 m).1),
        λ (m, p). elim (Memᴰ.cases_cons m) [
          | inl e ↦ absurd (
              ground (
                arith,
                p,
                miss,
                ap (λ y. passes parse_tolerant gte gt test (parse_tolerant y.version)) e,
              ))
          | inr t ↦ rest.1 (t, p)
        ],
      )
    ]

-- the nodes `nodes` are exactly those of `all` whose version parses and lies within the bounds
abbrev pub IsRange :
    {V : Type 0} (parse_tolerant : String → Option V) (gte : V → V → Bool) (min_sv max_sv : V)
    (all nodes : List Node)
    → Type 0
IsRange {V} parse_tolerant gte min_sv max_sv all nodes =
    (node : Node)
    → Memᴰ node nodes ↔ (
        Memᴰ node all
        × (sv : V) × (parse_tolerant node.version ≡ some sv)
        × (gte sv min_sv ≡ true)
        × (gte max_sv sv ≡ true))

module _ {V : Type 0} (parse_tolerant : String → Option V) (gte gt : V → V → Bool) where
  passes_split :
      (min_sv max_sv : V) (o : Option V)
      → (passes parse_tolerant gte gt (λ sv. gte sv min_sv && gte max_sv sv) o ≡ true)
        ↔ ((sv : V) × (o ≡ some sv) × (gte sv min_sv ≡ true) × (gte max_sv sv ≡ true))
  passes_split min_sv max_sv none =
      (λ h. ground (arith, h), λ (sv, e, low, high). ground (arith, e))
  passes_split min_sv max_sv (some sv) = (
    λ h. (sv, refl, ground (arith, h), ground (arith, h)),
    λ (sv', e, low, high). ground (arith, e, low, high),
  )

  -- With both bounds set and no shortest path asked for, the selection is exactly the nodes of the
  -- graph whose version parses and lies between the bounds, both ends included; a bound that does
  -- not parse is reported, and the upper one only when the lower one parses.
  pub resolve_release_nodes-IsRange :
      (graph : Graph) (min_version max_version : String)
      → min_version ≢ ""
      → max_version ≢ ""
      → ((min_sv : V) × (max_sv : V) × (nodes : List Node) × (parse_tolerant min_version
            ≡ some min_sv)
          × (parse_tolerant max_version ≡ some max_sv)
          × (resolve_release_nodes parse_tolerant gte gt graph min_version max_version false false
              ≡ resolved nodes)
          × IsRange parse_tolerant gte min_sv max_sv graph.nodes nodes)
        ⊎ (((parse_tolerant min_version ≡ none)
              × (resolve_release_nodes parse_tolerant gte gt graph min_version max_version false
                    false
                  ≡ refused (unparsable_min min_version)))
            ⊎ ((min_sv : V) × (parse_tolerant min_version ≡ some min_sv)
                × (parse_tolerant max_version ≡ none)
                × (resolve_release_nodes parse_tolerant gte gt graph min_version max_version false
                      false
                    ≡ refused (unparsable_max max_version))))
  unfolding resolve_release_nodes nodes_between
  resolve_release_nodes-IsRange graph min_version max_version low high =
      let low' : (min_version == "") ≡ false = ground (arith, eq_iff min_version "", low) in
      let high' : (max_version == "") ≡ false = ground (arith, eq_iff max_version "", high) in
      elim (Option-cases (parse_tolerant min_version)) [
        | inl out ↦ inr (inl (out, rw (low', high', nodes_between, out) refl))
        | inr (min_sv, e) ↦ elim (Option-cases (parse_tolerant max_version)) [
          | inl out ↦ inr (inr (min_sv, e, out, rw (low', high', nodes_between, e, out) refl))
          | inr (max_sv, e') ↦
              let test : V → Bool = λ sv. gte sv min_sv && gte max_sv sv in
              inl (
                min_sv,
                max_sv,
                nodes_where parse_tolerant gte gt test graph.nodes,
                e,
                e',
                rw (low', high', nodes_between, e, e') refl,
                λ node.
                    let m = mem-nodes_where parse_tolerant gte gt test graph.nodes node in
                    let split = passes_split min_sv max_sv (parse_tolerant node.version) in
                    (
                      λ q.
                          let (known, passed) = m.0 q in
                          let (sv, e, low, high) = split.0 passed in (known, sv, e, low, high),
                      λ (q, sv, e, low, high). m.1 (q, split.1 (sv, e, low, high)),
                    ),
              )
        ]
      ]
