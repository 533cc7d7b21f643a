-- ===== src/Config/Message/RoundTrip/Unknowns.antt =====
-- The unknown keys of a message: `load_unknowns` undoes `append_unknown` (src/config/internal.cpp).
use libsession_util.Prelude.{
  ◌≡◌, refl, sym, ap, ◌∙◌, true, false, Option, none, some, if◌then◌else◌, Bool-cases, inl, inr,
  arith,
}
use libsession_util.Prelude.Result.{ok}
use libsession_util.Order.{less, same}
use libsession_util.Keys.{Bytes, bytes_ord}
use libsession_util.Containers.SortedMap
use libsession_util.Config.Bt.{BtValue, BtDict, blank, field, fields}
use libsession_util.Config.Message.Read.{snoc, last_key, load_unknowns}
use libsession_util.Config.Message.Write.{append_unknown}

-- The pairs of the second dict behind those of the first.
abbrev pub add_all : BtDict → BtDict → BtDict
add_all acc blank = acc
add_all acc (field k v u) = add_all (snoc acc k v) u

-- The pairs below a key, and the others.
abbrev pub below : Bytes → BtDict → BtDict
below until blank = blank
below until (field k v u) = if less k until then field k v (below until u) else blank

abbrev pub above : Bytes → BtDict → BtDict
above until blank = blank
above until (field k v u) = if less k until then above until u else field k v u

abbrev pub AfterLast : Option Bytes → BtDict → Type 0
AfterLast none u = Unit
AfterLast (some k) u = SortedMap.Above k (fields u)

-- The next pair, if there is one, is not below the key.
abbrev pub StopsAt : Bytes → BtDict → Type 0
StopsAt until blank = Unit
StopsAt until (field k v u) = less k until ≡ false

abbrev pub NoKey : Bytes → BtDict → Type 0
NoKey key blank = Unit
NoKey key (field k v u) = (same k key ≡ false) × NoKey key u

abbrev pub AllBelow : Bytes → BtDict → Type 0
AllBelow key blank = Unit
AllBelow key (field k v u) = (less k key ≡ true) × AllBelow key u

last_key-snoc : (acc : BtDict) (k : Bytes) (v : BtValue) → last_key (snoc acc k v) ≡ some k
last_key-snoc blank k v = refl
last_key-snoc (field j w blank) k v = refl
last_key-snoc (field j w (field i z acc)) k v = last_key-snoc (field i z acc) k v

abbrev joined : BtDict → BtDict → BtDict
joined blank u = u
joined (field k v acc) u = field k v (joined acc u)

joined-snoc :
    (acc : BtDict) (k : Bytes) (v : BtValue) (u : BtDict)
    → joined (snoc acc k v) u ≡ joined acc (field k v u)
joined-snoc blank k v u = refl
joined-snoc (field j w acc) k v u = ap (field j w) (joined-snoc acc k v u)

joined-blank : (acc : BtDict) → joined acc blank ≡ acc
joined-blank blank = refl
joined-blank (field k v acc) = ap (field k v) (joined-blank acc)

add_all-joined : (acc u : BtDict) → add_all acc u ≡ joined acc u
add_all-joined acc blank = sym (joined-blank acc)
add_all-joined acc (field k v u) = add_all-joined (snoc acc k v) u ∙ joined-snoc acc k v u

-- All pairs are added to none.
pub add_all-blank : (u : BtDict) → add_all blank u ≡ u
add_all-blank u = add_all-joined blank u

AfterLast-blank : (o : Option Bytes) → AfterLast o blank
AfterLast-blank none = tt
AfterLast-blank (some k) = tt

-- What is written between two keys: the pairs that are left come after the last key that was read
-- and after the key before, and with the pairs that were read they are all of them.
pub record Pending (previous : Bytes) (acc u all : BtDict) : Type 0 where
  pub sorted : SortedMap.IsSorted (fields u)
  pub later : SortedMap.Above previous (fields u)
  pub adjoins : AfterLast (last_key acc) u
  pub whole : add_all acc u ≡ all

AfterLast-snoc :
    (acc : BtDict) (k : Bytes) (v : BtValue) (u : BtDict)
    → SortedMap.Above k (fields u)
    → AfterLast (last_key (snoc acc k v)) u
AfterLast-snoc acc k v u h = rw (last_key-snoc acc k v) h

load_unknowns_stops :
    (acc d : BtDict) (previous until : Bytes)
    → StopsAt until d
    → load_unknowns acc d previous until ≡ ok (acc, d)
unfolding load_unknowns
load_unknowns_stops acc blank previous until h = refl
load_unknowns_stops acc (field k v d) previous until h = rw h refl

first_follows :
    (o : Option Bytes) (k : Bytes) (v : BtValue) (u : BtDict)
    → AfterLast o (field k v u)
    → libsession_util.Config.Wire.after o k ≡ true
first_follows none k v u h = refl
first_follows (some j) k v u h = h.0

-- Reading the unknown keys that were written up to a key gives those below it.
pub load_unknowns-append_unknown :
    (u acc : BtDict) (previous until : Bytes) (rest : BtDict → BtDict)
    → SortedMap.IsSorted (fields u)
    → SortedMap.Above previous (fields u)
    → AfterLast (last_key acc) u
    → ((w : BtDict) → StopsAt until (rest w))
    → load_unknowns acc (append_unknown u until rest) previous until
      ≡ ok (add_all acc (below until u), rest (above until u))
unfolding load_unknowns append_unknown
load_unknowns-append_unknown blank acc previous until rest s p f h =
    load_unknowns_stops acc (rest blank) previous until (h blank)
load_unknowns-append_unknown (field k v u) acc previous until rest s p f h =
    elim (Bool-cases (less k until)) [
      | inl e ↦
          rw (e, append_unknown)
            (rw (e, p.0, first_follows (last_key acc) k v u f)
              (load_unknowns-append_unknown u (snoc acc k v) previous until rest s.1 p.1
                (AfterLast-snoc acc k v u s.0) h))
      | inr e ↦
          rw (e, append_unknown)
            (load_unknowns_stops acc (rest (field k v u)) previous until (h (field k v u)))
    ]

pub NoKey-above : (key until : Bytes) (u : BtDict) → NoKey key u → NoKey key (above until u)
NoKey-above key until blank h = tt
NoKey-above key until (field k v u) h = elim (Bool-cases (less k until)) [
  | inl e ↦ rw e (NoKey-above key until u h.1)
  | inr e ↦ rw e h
]

pub AllBelow-above :
    (key until : Bytes) (u : BtDict) → AllBelow key u → AllBelow key (above until u)
AllBelow-above key until blank h = tt
AllBelow-above key until (field k v u) h = elim (Bool-cases (less k until)) [
  | inl e ↦ rw e (AllBelow-above key until u h.1)
  | inr e ↦ rw e h
]

pub below_of_AllBelow : (key : Bytes) (u : BtDict) → AllBelow key u → below key u ≡ u
below_of_AllBelow key blank h = refl
below_of_AllBelow key (field k v u) h = rw (h.0) (ap (field k v) (below_of_AllBelow key u h.1))

-- The state behind a key that is not among the unknown ones.
pub Pending-above :
    (previous until : Bytes) (acc u all : BtDict)
    → NoKey until u
    → Pending previous acc u all
    → Pending until (add_all acc (below until u)) (above until u) all
Pending-above previous until acc blank all n p = record {
  sorted = tt;
  later = tt;
  adjoins = AfterLast-blank (last_key acc);
  whole = p.whole;
}
Pending-above previous until acc (field k v u) all n p = elim (Bool-cases (less k until)) [
  | inl e ↦ rw e (
      Pending-above previous until (snoc acc k v) u all n.1 (record {
        sorted = p.sorted.1;
        later = p.later.1;
        adjoins = AfterLast-snoc acc k v u p.sorted.0;
        whole = p.whole;
      }))
  | inr e ↦
      let after : less until k ≡ true = ground (arith, e, n.0) in
      rw e (record {
        sorted = p.sorted;
        later = (after, SortedMap.Above-trans until k (fields u) after p.sorted.0);
        adjoins = p.adjoins;
        whole = p.whole;
      })
]
