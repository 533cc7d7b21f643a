-- ===== src/Tests/Examples.antt =====
-- Concrete data for the tests: two versions of a small config.
use libsession_util.Prelude.{refl, [], ◌∷◌}
use libsession_util.Prelude.Int.{pos}
use libsession_util.Keys.{Bytes, list_lt}
use libsession_util.Config.Data.{
  Dict, dict, set, scalar, int, string, empty, entry, IsOrdered, IsPruned,
}

abbrev pub key_a : Bytes
key_a = b'a' ∷ []

abbrev pub key_b : Bytes
key_b = b'b' ∷ []

abbrev pub key_c : Bytes
key_c = b'c' ∷ []

-- {a: 1, b: (2, 3), c: {a: "b"}}
abbrev pub before : Dict
before = entry key_a (scalar (int (pos 1))) (
    entry key_b (set (int (pos 2) ∷ int (pos 3) ∷ []))
      (entry key_c (dict (entry key_a (scalar (string key_b)) empty)) empty))

-- {b: (3, "a"), c: {a: "c", b: (1)}}
abbrev pub later : Dict
later = entry key_b (set (int (pos 3) ∷ string key_a ∷ [])) (
    entry key_c
      (dict (entry key_a (scalar (string key_c)) (entry key_b (set (int (pos 1) ∷ [])) empty)))
      empty)

pub before-IsOrdered : IsOrdered before
unfolding list_lt
before-IsOrdered =
    ((refl, (refl, tt)), tt, ((refl, tt), ((refl, tt), (tt, tt)), (tt, (tt, tt, tt), tt)))

pub before-IsPruned : IsPruned before
before-IsPruned = (tt, (refl, ((refl, (tt, tt)), tt)))

pub later-IsOrdered : IsOrdered later
unfolding list_lt
later-IsOrdered =
    ((refl, tt), ((refl, tt), (tt, tt)), (tt, ((refl, tt), tt, (tt, (tt, tt), tt)), tt))

pub later-IsPruned : IsPruned later
later-IsPruned = (refl, ((refl, (tt, (refl, tt))), tt))
