-- ===== src/Controller/Cleanup.antt =====
-- What the cleanup of a removed ImageSet spares of the images that other ImageSets need.
use oc_mirror_operator.Base.{String, Bool, ◌==◌, ◌&&◌, ◌||◌, is_some}
use oc_mirror_operator.ImageState.Entry.{ImageState}
use oc_mirror_operator.ImageState.SharedIndex.{SharedIndex}
use text.Mathlib.Text.{find?}
use oc_mirror_operator.Controller.{repo_and_digest, pinned, has_digest}

-- by the names alone: they are equal, or `dest` is a digest reference to the manifest that `other`
-- names
abbrev named_alike : String → String → Bool
named_alike dest other =
    other == dest
    || (is_some (find? dest "@sha256:")
        && has_digest (repo_and_digest dest)
        && has_digest (repo_and_digest other)
        && pinned (repo_and_digest other) == pinned (repo_and_digest dest))

-- the name of the destination tells a digest
abbrev pub names_digest : String → Bool
names_digest dest = is_some (find? dest "@sha256:") || has_digest (repo_and_digest dest)

module _ (resolves : String → String × String) where
  -- What a deletion in the target registry removes, where a destination resolves to a repository and
  -- the digest of a manifest: the deletion of a tag removes the tag, and that of a digest reference
  -- every destination of the manifest.
  abbrev pub removes : String → String → Bool
  removes dest other =
      other == dest
      || (is_some (find? dest "@sha256:")
          && (resolves other).0 == (resolves dest).0
          && (resolves other).1 == (resolves dest).1)
