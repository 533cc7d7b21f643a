-- ===== src/Tests/WireTests.antt =====
-- Reading, writing and validating at concrete inputs.
use libsession_util.Prelude.{◌≡◌, refl, [], ◌∷◌, ◌↔◌}
use libsession_util.Prelude.Int.{pos}
use libsession_util.Prelude.Result.{ok, err, config_error, bt_deserialize_invalid, endless_loop}
use libsession_util.Keys.{list_lt}
use libsession_util.Containers.SortedMap
use libsession_util.Config.Data.{Dict, set, int, empty, entry, find, IsOrdered, IsPruned}
use libsession_util.Config.Bt.{BtDict, integer, text, list, nil, blank, field, get_bt_scalar}
use libsession_util.Config.Apply.{apply_diff}
use libsession_util.Config.Wire.{serialize_data, parse_data, load_diff}
use libsession_util.Config.Wire.Accept
use libsession_util.Config.Wire.Apply
use libsession_util.Config.Wire.Apply.{Succeeds}
use libsession_util.Tests.Examples.{key_a, before, later}

parse_data-ok_iff_example :
    (parse_data (serialize_data before) ≡ ok before)
    ↔ ((serialize_data before ≡ serialize_data before) × IsOrdered before × IsPruned before)
parse_data-ok_iff_example = Accept.parse_data-ok_iff (serialize_data before) before

-- The reader refuses repeated keys, an empty set, and accepts an empty top level.
parse_runs :
    (parse_data (field key_a (text []) (field key_a (text []) blank)) ≡ err bt_deserialize_invalid)
    × (parse_data (field key_a (list nil) blank) ≡ err bt_deserialize_invalid)
    × (parse_data blank ≡ ok empty)
unfolding parse_data list_lt
parse_runs = (refl, refl, refl)

abbrev clear_a : BtDict
clear_a = field key_a (text (b'-' ∷ [])) blank

load_clear_a : load_diff clear_a ≡ ok clear_a
unfolding load_diff
load_clear_a = refl

load_diff-apply_diff_example : Succeeds (apply_diff before clear_a later)
load_diff-apply_diff_example =
    Apply.load_diff-apply_diff clear_a clear_a before later load_clear_a (tt, tt)

abbrev one_set : Dict
one_set = entry key_a (set (int (pos 1) ∷ [])) empty

-- A list in the place of an added element.
load_diff_lone_element_example :
    (load_diff (Apply.adds_one key_a (list nil)) ≡ ok (Apply.adds_one key_a (list nil)))
    × (apply_diff before (Apply.adds_one key_a (list nil)) one_set ≡ err config_error)
unfolding get_bt_scalar find SortedMap.find list_lt
load_diff_lone_element_example =
    Apply.load_diff_lone_element key_a (list nil) before one_set (int (pos 1) ∷ []) refl refl

-- An integer in the place of a diff value.
integer_diff : load_diff (field key_a (integer (pos 1)) blank) ≡ err endless_loop
unfolding load_diff
integer_diff = refl
