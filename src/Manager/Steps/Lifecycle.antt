-- ===== src/Manager/Steps/Lifecycle.antt =====
-- The abstract view of one image and the moves that are allowed to it.
use oc_mirror_operator.Base.{
  String, Bool, true, false, Option, none, some, ◌≡◌, ◌||◌, is_some, refl,
}
use oc_mirror_operator.Base.Dict.{lookup}
use oc_mirror_operator.ImageState.Entry.{ImageEntry}
use oc_mirror_operator.Manager.State.{MirrorManager}
use oc_mirror_operator.Manager.Sweep.{is_flagged}
use oc_mirror_operator.Manager.Steps.{is_mirrored}

abbrev pub entry_has : (ImageEntry → Bool) → Option ImageEntry → Bool
entry_has test none = false
entry_has test (some e) = test e

-- whether the image is in the state, is believed to be in the target registry, and is given up
pub record Lifecycle : Type 0 where
  pub known : Bool
  pub claimed : Bool
  pub given_up : Bool

abbrev pub seen : Option ImageEntry → Option Bool → Lifecycle
seen entry flag = record {
  known = is_some entry;
  claimed = entry_has is_mirrored entry || is_flagged flag;
  given_up = entry_has (λ e. e.permanently_failed) entry;
}

abbrev pub lifecycle : String → MirrorManager → Lifecycle
lifecycle dest m = seen (lookup dest m.image_state) (lookup dest m.mirrored)

-- An image becomes known only by an event that adds it, believed mirrored only by one that vouches
-- for it, and keeps its permanent failure as long as it stays in the state.
pub record Allowed (adding vouching : Bool) (before after : Lifecycle) : Type 0 where
  pub known : adding ≡ false → after.known ≡ true → before.known ≡ true
  pub claimed : vouching ≡ false → after.claimed ≡ true → before.claimed ≡ true
  pub given_up : before.given_up ≡ true → after.known ≡ true → after.given_up ≡ true

pub Allowed-refl : {adding vouching : Bool} (a : Lifecycle) → Allowed adding vouching a a
Allowed-refl a = record { known = λ h k. k; claimed = λ h k. k; given_up = λ h k. h }

-- moves that add nothing follow each other
pub Allowed-trans :
    {v : Bool} (a b c : Lifecycle) → Allowed false v a b → Allowed false v b c → Allowed false v a c
Allowed-trans a b c p q = record {
  known = λ h k. p.known h (q.known h k);
  claimed = λ h k. p.claimed h (q.claimed h k);
  given_up = λ h k. q.given_up (p.given_up h (q.known refl k)) k;
}

pub Allowed-weaken :
    {v w : Bool} (a b : Lifecycle)
    → (w ≡ false → v ≡ false)
    → Allowed false v a b
    → Allowed false w a b
Allowed-weaken a b h p = record {
  known = p.known;
  claimed = λ e. p.claimed (h e);
  given_up = p.given_up;
}
