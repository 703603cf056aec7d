-- ===== src/Manager/Persist/Life.antt =====
-- What an entry says apart from the metadata of its spec: a view and a merge of copies keep it.
use oc_mirror_operator.Base.{ℕ, String, Bool, Option, none, some, ◌≡◌, if_both, refl}
use oc_mirror_operator.ImageState.Entry.{EntryState, ImageEntry}
use oc_mirror_operator.Manager.State.{MirrorManager, SpecMeta}
use oc_mirror_operator.Manager.Ownership.{owner_view, apply_to, with_meta, owner_meta_of}
use oc_mirror_operator.Manager.Persist.{merge_loaded_entry, whole_seconds, saved_view}

-- what an entry says apart from the metadata of its spec
pub record Life : Type 0 where
  pub source : String
  pub state : EntryState
  pub last_error : String
  pub retry_count : ℕ
  pub permanently_failed : Bool
  pub next_retry_at : Option ℕ
  pub signature_verified : Bool
  pub source_digest : String

abbrev pub life : ImageEntry → Life
life e = record {
  source = e.source;
  state = e.state;
  last_error = e.last_error;
  retry_count = e.retry_count;
  permanently_failed = e.permanently_failed;
  next_retry_at = e.next_retry_at;
  signature_verified = e.signature_verified;
  source_digest = e.source_digest;
}

abbrev pub HasLife : Life → Option ImageEntry → Type 0
HasLife l none = Unit
HasLife l (some e) = life e ≡ l

-- what a ConfigMap has of it: the time of the next retry is cut to a whole second
abbrev pub saved_life : ImageEntry → Life
saved_life e = record (life e) { next_retry_at = whole_seconds e.next_retry_at }

pub life-saved_view :
    (m : MirrorManager) (dest n : String) (e : ImageEntry)
    → life (saved_view m dest n e) ≡ saved_life e
unfolding saved_view owner_view apply_to
life-saved_view m dest n e = go (owner_meta_of m.owner_meta dest n)
  where
    go :
        (o : Option SpecMeta)
        → life
            (record (with_meta o e) { next_retry_at = whole_seconds (with_meta o e).next_retry_at })
          ≡ saved_life e
    go none = refl
    go (some meta) = refl

pub merge_loaded_entry-life :
    (l : Life) (existing : Option ImageEntry) (incoming : ImageEntry)
    → HasLife l existing
    → life incoming ≡ l
    → life (merge_loaded_entry existing incoming) ≡ l
merge_loaded_entry-life l none incoming h k = k
merge_loaded_entry-life l (some existing) incoming h k =
    if_both (λ e. life e ≡ l) _ _ _ (if_both (λ e. life e ≡ l) _ incoming existing k h)
      (if_both (λ e. life e ≡ l) _ incoming existing k h)
