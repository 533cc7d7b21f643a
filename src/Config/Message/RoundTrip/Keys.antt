-- ===== src/Config/Message/RoundTrip/Keys.antt =====
-- The unknown keys that `load_unknowns` reads (src/config/internal.cpp) stand in order between the
-- known ones.
use libsession_util.Prelude.{◌≡◌, refl, true, false, ◌&&◌, arith}
use libsession_util.Prelude.Result.{
  bt_deserialize_invalid, Ensures, Ensures-ok, Ensures-if, guard-Ensures,
}
use libsession_util.Order.{less, same}
use libsession_util.Keys.{Bytes, bytes_ord, list_lt}
use libsession_util.Containers.SortedMap
use libsession_util.Config.Bt.{BtValue, BtDict, blank, field, fields}
use libsession_util.Config.Wire.{after}
use libsession_util.Config.Message.Read.{
  seqno_key, data_key, lags_key, diff_key, sig_key, snoc, last_key, load_unknowns,
}

-- A key that stands between two neighbouring known keys.
pub record IsUnknownKey (k : Bytes) : Type 0 where
  pub later : less seqno_key k ≡ true
  pub not_data : same k data_key ≡ false
  pub not_lags : same k lags_key ≡ false
  pub not_diff : same k diff_key ≡ false
  pub earlier : less k sig_key ≡ true

abbrev Between : Bytes → Bytes → Type 0
Between previous until = (k : Bytes) → less previous k ≡ true → less k until ≡ true → IsUnknownKey k

module _ (k j i : Bytes) (h : less i j ≡ true) where
  up : less k i ≡ true → less k j ≡ true
  up p = bytes_ord.trans k i j p h

  down : less j k ≡ true → less i k ≡ true
  down p = bytes_ord.trans i j k h p

other_if_less : (k j : Bytes) → less k j ≡ true → same k j ≡ false
other_if_less k j p = ground (arith, p)

other_if_more : (k j : Bytes) → less j k ≡ true → same k j ≡ false
other_if_more k j p = ground (arith, p)

pub keys_before_data : Between seqno_key data_key
unfolding list_lt
keys_before_data k p q = record {
  later = p;
  not_data = other_if_less k data_key q;
  not_lags = other_if_less k lags_key (up k lags_key data_key refl q);
  not_diff = other_if_less k diff_key (up k diff_key data_key refl q);
  earlier = up k sig_key data_key refl q;
}

pub keys_before_lags : Between data_key lags_key
unfolding list_lt
keys_before_lags k p q = record {
  later = down k data_key seqno_key refl p;
  not_data = other_if_more k data_key p;
  not_lags = other_if_less k lags_key q;
  not_diff = other_if_less k diff_key (up k diff_key lags_key refl q);
  earlier = up k sig_key lags_key refl q;
}

pub keys_before_diff : Between lags_key diff_key
unfolding list_lt
keys_before_diff k p q = record {
  later = down k lags_key seqno_key refl p;
  not_data = other_if_more k data_key (down k lags_key data_key refl p);
  not_lags = other_if_more k lags_key p;
  not_diff = other_if_less k diff_key q;
  earlier = up k sig_key diff_key refl q;
}

pub keys_before_sig : Between diff_key sig_key
unfolding list_lt
keys_before_sig k p q = record {
  later = down k diff_key seqno_key refl p;
  not_data = other_if_more k data_key (down k diff_key data_key refl p);
  not_lags = other_if_more k lags_key (down k diff_key lags_key refl p);
  not_diff = other_if_more k diff_key p;
  earlier = q;
}

abbrev pub AllUnknown : BtDict → Type 0
AllUnknown blank = Unit
AllUnknown (field k v d) = IsUnknownKey k × AllUnknown d

-- The unknown keys that were read.
pub record UnknownRead (d : BtDict) : Type 0 where
  pub unknown : AllUnknown d
  pub sorted : SortedMap.IsSorted (fields d)

AllUnknown-snoc :
    (d : BtDict) (k : Bytes) (v : BtValue) → AllUnknown d → IsUnknownKey k → AllUnknown (snoc d k v)
AllUnknown-snoc blank k v h p = (p, tt)
AllUnknown-snoc (field j w d) k v h p = (h.0, AllUnknown-snoc d k v h.1 p)

Above-snoc :
    (j : Bytes) (d : BtDict) (k : Bytes) (v : BtValue)
    → SortedMap.Above j (fields d)
    → less j k ≡ true
    → SortedMap.Above j (fields (snoc d k v))
Above-snoc j blank k v h p = (p, tt)
Above-snoc j (field i w d) k v h p = (h.0, Above-snoc j d k v h.1 p)

first_before :
    (j : Bytes) (w : BtValue) (d : BtDict) (k : Bytes)
    → SortedMap.IsSorted (fields (field j w d))
    → after (last_key (field j w d)) k ≡ true
    → less j k ≡ true
first_before j w blank k s h = h
first_before j w (field i z d) k s h = down k i j s.0.0 (first_before i z d k s.1 h)

after_tail :
    (j : Bytes) (w : BtValue) (d : BtDict) (k : Bytes)
    → after (last_key (field j w d)) k ≡ true
    → after (last_key d) k ≡ true
after_tail j w blank k h = refl
after_tail j w (field i z d) k h = h

IsSorted-snoc :
    (d : BtDict) (k : Bytes) (v : BtValue)
    → SortedMap.IsSorted (fields d)
    → after (last_key d) k ≡ true
    → SortedMap.IsSorted (fields (snoc d k v))
IsSorted-snoc blank k v s h = (tt, tt)
IsSorted-snoc (field j w d) k v s h = (
  Above-snoc j d k v s.0 (first_before j w d k s h),
  IsSorted-snoc d k v s.1 (after_tail j w d k h),
)

-- What is read between two neighbouring known keys joins what was read before.
pub load_unknowns-UnknownRead :
    (previous until : Bytes) (b : Between previous until) (acc d : BtDict)
    → UnknownRead acc
    → Ensures (λ (r : BtDict × BtDict). UnknownRead r.0) (load_unknowns acc d previous until)
unfolding load_unknowns
load_unknowns-UnknownRead previous until b acc blank h = Ensures-ok _ _ h
load_unknowns-UnknownRead previous until b acc (field k v d) h =
    Ensures-if _ (less k until) _ _
      (λ p.
        guard-Ensures _ (less previous k && after (last_key acc) k) bt_deserialize_invalid _ (λ q.
          let behind : less previous k ≡ true = ground (arith, q) in
          let last : after (last_key acc) k ≡ true = ground (arith, q) in
          load_unknowns-UnknownRead previous until b (snoc acc k v) d (record {
            unknown = AllUnknown-snoc acc k v h.unknown (b k behind p);
            sorted = IsSorted-snoc acc k v h.sorted last;
          })))
      (λ p. Ensures-ok _ _ h)
