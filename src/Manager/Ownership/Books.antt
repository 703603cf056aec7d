-- ===== src/Manager/Ownership/Books.antt =====
-- The owners map.
use oc_mirror_operator.Base.{
  String, ◌≡◌, refl, true, false, List, [], ◌∷◌, ◌++◌, ◌==◌, ◌&&◌, ◌||◌, not, arith, eq_iff,
  contains, without, contains-append, contains-without,
}
use oc_mirror_operator.Base.Dict.{lookup-insert, lookup-remove}
use oc_mirror_operator.Manager.Ownership.{
  Owners, owners_of, has_owner, add_owner, remove_owner, is_nil,
}

contains-is_nil :
    (names : List String) (n : String) → is_nil names ≡ true → contains names n ≡ false
contains-is_nil [] n h = refl
contains-is_nil (x ∷ names) n h = cc

pub has_owner-add_owner :
    (owners : Owners) (dest is_name j n : String)
    → has_owner (add_owner owners dest is_name) j n
      ≡ has_owner owners j n || (dest == j && is_name == n)
unfolding add_owner
has_owner-add_owner owners dest is_name j n =
    let names = owners_of owners dest in
    ground (
      arith,
      eq_iff dest j,
      eq_iff is_name n,
      lookup-insert dest j (names ++ is_name ∷ []) owners,
      contains-append names (is_name ∷ []) n,
    )

pub has_owner-remove_owner :
    (owners : Owners) (dest is_name j n : String)
    → has_owner (remove_owner owners dest is_name).0 j n
      ≡ has_owner owners j n && not (dest == j && is_name == n)
unfolding remove_owner
has_owner-remove_owner owners dest is_name j n =
    let names = owners_of owners dest in
    let out = without is_name names in
    ground (
      arith,
      eq_iff dest j,
      eq_iff is_name n,
      lookup-insert dest j out owners,
      lookup-remove dest j owners,
      contains-without is_name n names,
      contains-is_nil out n,
    )
