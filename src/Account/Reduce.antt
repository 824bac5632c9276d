-- ===== src/Account/Reduce.antt =====
-- Reducing patches one after the other (workspaces/src/types/account.rs).
use near_workspaces_rs.Prelude.{◌≡◌, arith}
use near_workspaces_rs.Account.{
  AccountDetailsPatch, AccountDetails, empty_patch, reduce, patch_from_details, details_from_patch,
}

-- Patches form a monoid: the empty patch changes nothing on either side, and three patches may be
-- reduced in either grouping.
pub reduce_monoid :
    (a b c : AccountDetailsPatch)
    → (reduce empty_patch a ≡ a)
      × (reduce a empty_patch ≡ a)
      × (reduce (reduce a b) c ≡ reduce a (reduce b c))
unfolding reduce empty_patch
reduce_monoid a b c = ground arith

-- A full patch overrides whatever was reduced before it, and converts back to its details.
pub reduce-patch_from_details :
    (p : AccountDetailsPatch) (d : AccountDetails)
    → (reduce p (patch_from_details d) ≡ patch_from_details d)
      × (details_from_patch (patch_from_details d) ≡ d)
unfolding reduce patch_from_details details_from_patch
reduce-patch_from_details p d = ground arith
