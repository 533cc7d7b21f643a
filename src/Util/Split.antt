-- ===== src/Util/Split.antt =====
-- `split` (src/util.cpp).
pub mod Laws
use libsession_util.Prelude.{
  ℕ, zero, suc, ◌+◌, ◌==◌, Bool, true, false, not, ◌&&◌, ◌||◌, Option, none, some, List, [], ◌∷◌,
  ◌++◌, map, length, ltb, take, drop, if◌then◌else◌,
}
use libsession_util.Keys.{Bytes}
use libsession_util.Config.Data.{is_nil}
use libsession_util.Util.Url.{find}

-- The loop that pops empty pieces off the end.
unfoldable pub drop_empty_end : List Bytes → List Bytes
drop_empty_end [] = []
drop_empty_end (p ∷ pieces) = elim (drop_empty_end pieces) [
  | [] ↦ if is_nil p then [] else p ∷ []
  | q ∷ rest ↦ p ∷ q ∷ rest
]

-- What follows the loop.
abbrev pub finish_split : Bool → Bytes → List Bytes → List Bytes
unfolding drop_empty_end
finish_split trim str results =
    if not trim || not (is_nil str) then results ++ (str ∷ []) else drop_empty_end results

-- The loop, with what is left of the text and the pieces so far. Each round takes the delimiter off
-- the text, so that the length of the text is fuel enough.
unfoldable pub split_from : ℕ → Bytes → Bool → Bytes → List Bytes → List Bytes
unfolding find drop_empty_end
split_from zero delim trim str results = finish_split trim str results
split_from (suc fuel) delim trim str results = elim (find delim str) [
  | none ↦ finish_split trim str results
  | some pos ↦
      let kept = not trim || not (is_nil results) || ltb 0 pos in
      split_from fuel delim trim (drop (pos + length delim) str)
        (if kept then results ++ (take pos str ∷ []) else results)
]

unfoldable pub split : Bytes → Bytes → Bool → List Bytes
unfolding split_from
split str [] trim = map (λ c. c ∷ []) str
split str (d ∷ delim) trim = split_from (length str) (d ∷ delim) trim str []
