-- ===== src/Config/Prune.antt =====
-- `prune_` of src/config.cpp: removes empty sets and dicts, at every depth. Each function gives
-- the value as the pruning leaves it, and the flags of the source's pair: for a value whether it
-- is to be removed from its parent, and whether anything below it was removed.
pub mod Laws
use libsession_util.Prelude.{Bool, true, false, ◌||◌, if◌then◌else◌}
use libsession_util.Config.Data.{Value, Dict, dict, set, scalar, empty, entry, is_nil, is_empty}

pub record Pruned (A : Type 0) : Type 0 where
  pub result : A
  pub should_remove : Bool
  pub removed_subkeys : Bool

unfoldable mutual
  pub prune_value : Value → Pruned Value
  prune_value (dict d) =
      let p = prune d in
      record {
        result = dict p.result;
        should_remove = p.should_remove;
        removed_subkeys = p.removed_subkeys;
      }
  prune_value (set s) = record { result = set s; should_remove = is_nil s; removed_subkeys = false }
  prune_value (scalar s) = record {
    result = scalar s;
    should_remove = false;
    removed_subkeys = false;
  }

  -- The loop over the entries; the flag for the dict itself is `d.empty()` after the loop.
  pub prune : Dict → Pruned Dict
  prune empty = record { result = empty; should_remove = true; removed_subkeys = false }
  prune (entry k v d) =
      let p = prune_value v in
      let rest = prune d in
      let left = if p.should_remove then rest.result else entry k p.result rest.result in
      record {
        result = left;
        should_remove = is_empty left;
        removed_subkeys = p.should_remove || p.removed_subkeys || rest.removed_subkeys;
      }
