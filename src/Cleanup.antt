-- ===== src/Cleanup.antt =====
-- The cleanup job (pkg/mirror/cleanup/cleanup.go): deletes the mirrored images of a state from the
-- target registry, and the ConfigMap of the state once nothing is left in it to delete. The
-- deletion of one manifest is a parameter: `delete n` is that of the n-th registry client.
use oc_mirror_operator.Base.{
  ℕ, suc, ◌%◌, String, Bool, true, false, Option, none, some, List, [], ◌∷◌, ◌&&◌, not,
  if◌then◌else◌, eqb, ltb,
}
use oc_mirror_operator.ImageState.Entry.{ImageEntry, ImageState, state_mirrored, state_eq}

-- `Result`
pub record Counts : Type 0 where
  pub deleted : ℕ
  pub skipped : ℕ
  pub failed : ℕ

abbrev pub refresh_interval : ℕ
refresh_interval = 20

-- the loop's variables: the counts, the number of deletions tried, the client in use
pub record Progress (W : Type 0) : Type 0 where
  pub counts : Counts
  pub count : ℕ
  pub client : ℕ
  pub world : W

module _ {W : Type 0} (delete : ℕ → String → W → Bool × W) where
  abbrev pub tally : Bool → Counts → Counts
  tally true c = record c { deleted = suc c.deleted }
  tally false c = record c { failed = suc c.failed }

  abbrev pub after_delete : Progress W → ℕ → Bool × W → Progress W
  after_delete p client (ok, w) = record {
    counts = tally ok p.counts;
    count = suc p.count;
    client = client;
    world = w;
  }

  abbrev pub client_for : Progress W → ℕ
  client_for p =
      if ltb 0 p.count && eqb (p.count % refresh_interval) 0 then suc p.client else p.client

  unfoldable pub clean_entry : String → ImageEntry → Progress W → Progress W
  clean_entry dest e p =
      if not (state_eq e.state state_mirrored)
      then record p { counts = record p.counts { skipped = suc p.counts.skipped } }
      else after_delete p (client_for p) (delete (client_for p) dest p.world)

  unfoldable pub clean_all : ImageState → Progress W → Progress W
  clean_all [] p = p
  clean_all ((dest, e) ∷ state) p = clean_all state (clean_entry dest e p)

  -- the counts, whether the ConfigMap is deleted, and the world; `none`: the state did not load
  unfoldable pub run : Option ImageState → W → Option Counts × Bool × W
  run none w = (none, false, w)
  run (some []) w = (some (record { deleted = 0; skipped = 0; failed = 0 }), true, w)
  run (some (entry ∷ state)) w =
      let start : Progress W = record {
        counts = record { deleted = 0; skipped = 0; failed = 0 };
        count = 0;
        client = 0;
        world = w;
      } in
      let p = clean_all (entry ∷ state) start in (some p.counts, eqb p.counts.failed 0, p.world)

-- the destinations of the mirrored entries, in the order of the loop
unfoldable pub mirrored_dests : ImageState → List String
mirrored_dests [] = []
mirrored_dests ((dest, e) ∷ state) =
    let rest = mirrored_dests state in if state_eq e.state state_mirrored then dest ∷ rest else rest
