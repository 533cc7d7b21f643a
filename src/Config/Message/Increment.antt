-- ===== src/Config/Message/Increment.antt =====
-- What the loops of `increment_impl` keep of the lagged diffs (src/config.cpp).
pub mod Lagged
use libsession_util.Prelude.{◌≡◌, refl, true, false, [], ◌∷◌, All, All-map, arith, if◌then◌else◌}
use libsession_util.Prelude.Int.{ℤ, pos, ltb_ℤ, leb_ℤ, ◌+ℤ◌}
use libsession_util.Order.{less}
use libsession_util.Keys.{bytes_ord, int_ord, pair_ord}
use libsession_util.Containers.SortedMap
use libsession_util.Config.Bt.{BtDict}
use libsession_util.Config.Message.{Message, SeqnoHash, LaggedDiffs, seqno}
use libsession_util.Config.Message.Lagged.{too_old}
use libsession_util.Config.Message.Mutable.{increment_impl, drop_old, drop_recent}
use libsession_util.Config.Message.Earlier.{HasEarlierLags}
use libsession_util.Config.Message.Merge.Select.{includes}
use libsession_util.Config.Message.Merge.Keeps.{Has-emplace_same}

module _ (P : SeqnoHash × BtDict → Type 0) where
  pub drop_old-All :
      (curr lag : ℤ) (lags : LaggedDiffs) → All P lags → All P (drop_old curr lag lags)
  unfolding drop_old
  drop_old-All curr lag [] h = tt
  drop_old-All curr lag (e ∷ lags) h =
      elim (too_old curr lag e.0.0)
        as (λ b. All P (if b then drop_old curr lag lags else e ∷ lags)) [
          | true ↦ drop_old-All curr lag lags h.1
          | false ↦ h
        ]

  abbrev pub kept_or : ℤ → SeqnoHash × BtDict → LaggedDiffs → LaggedDiffs
  kept_or curr e [] = if leb_ℤ curr e.0.0 then [] else e ∷ []
  kept_or curr e (d ∷ rest) = e ∷ d ∷ rest

  kept_or-All :
      (curr : ℤ) (e : SeqnoHash × BtDict) (l : LaggedDiffs)
      → P e
      → All P l
      → All P (kept_or curr e l)
  kept_or-All curr e [] p h = elim (leb_ℤ curr e.0.0) as (λ b. All P (if b then [] else e ∷ [])) [
    | true ↦ tt
    | false ↦ (p, tt)
  ]
  kept_or-All curr e (d ∷ rest) p h = (p, h)

  pub drop_recent-cons :
      (curr : ℤ) (e : SeqnoHash × BtDict) (lags : LaggedDiffs)
      → drop_recent curr (e ∷ lags) ≡ kept_or curr e (drop_recent curr lags)
  unfolding drop_recent
  drop_recent-cons curr e lags = elim (drop_recent curr lags) [ [] ↦ refl | d ∷ rest ↦ refl ]

  pub drop_recent-All : (curr : ℤ) (lags : LaggedDiffs) → All P lags → All P (drop_recent curr lags)
  unfolding drop_recent
  drop_recent-All curr [] h = tt
  drop_recent-All curr (e ∷ lags) h =
      rw (drop_recent-cons curr e lags)
        (kept_or-All curr e (drop_recent curr lags) h.0 (drop_recent-All curr lags h.1))

  pub emplace-All :
      (k : SeqnoHash) (d : BtDict) (lags : LaggedDiffs)
      → P (k, d)
      → All P lags
      → All P (SortedMap.emplace k d lags)
  unfolding SortedMap.emplace
  emplace-All k d [] p h = (p, tt)
  emplace-All k d (e ∷ lags) p h =
      elim (less k e.0)
        as (λ b. All P (
          if b
          then (k, d) ∷ e ∷ lags
          else if less e.0 k
          then e ∷ SortedMap.emplace k d lags
          else e ∷ lags)) [
            | true ↦ (p, h)
            | false ↦
                elim (less e.0 k)
                  as (λ b. All P (if b then e ∷ SortedMap.emplace k d lags else e ∷ lags)) [
                    | true ↦ (h.0, emplace-All k d lags p h.1)
                    | false ↦ h
                  ]
          ]

abbrev pub Behind : SeqnoHash → SeqnoHash × BtDict → Type 0
Behind k e = less k e.0 ≡ true

pub Above-All : (k : SeqnoHash) (l : LaggedDiffs) → SortedMap.Above k l → All (Behind k) l
Above-All k [] h = tt
Above-All k (e ∷ l) h = (h.0, Above-All k l h.1)

pub All-Above : (k : SeqnoHash) (l : LaggedDiffs) → All (Behind k) l → SortedMap.Above k l
All-Above k [] h = tt
All-Above k (e ∷ l) h = (h.0, All-Above k l h.1)

pub drop_old-IsSorted :
    (curr lag : ℤ) (lags : LaggedDiffs)
    → SortedMap.IsSorted lags
    → SortedMap.IsSorted (drop_old curr lag lags)
unfolding drop_old
drop_old-IsSorted curr lag [] h = tt
drop_old-IsSorted curr lag (e ∷ lags) h =
    elim (too_old curr lag e.0.0)
      as (λ b. SortedMap.IsSorted (if b then drop_old curr lag lags else e ∷ lags)) [
        | true ↦ drop_old-IsSorted curr lag lags h.1
        | false ↦ h
      ]

kept_or-IsSorted :
    (curr : ℤ) (e : SeqnoHash × BtDict) (l : LaggedDiffs)
    → SortedMap.Above e.0 l
    → SortedMap.IsSorted l
    → SortedMap.IsSorted (kept_or (λ d. Unit) curr e l)
kept_or-IsSorted curr e [] a h =
    elim (leb_ℤ curr e.0.0) as (λ b. SortedMap.IsSorted (if b then [] else e ∷ [])) [
      | true ↦ tt
      | false ↦ (tt, tt)
    ]
kept_or-IsSorted curr e (d ∷ rest) a h = (a, h)

pub drop_recent-IsSorted :
    (curr : ℤ) (lags : LaggedDiffs)
    → SortedMap.IsSorted lags
    → SortedMap.IsSorted (drop_recent curr lags)
unfolding drop_recent
drop_recent-IsSorted curr [] h = tt
drop_recent-IsSorted curr (e ∷ lags) h =
    let a : SortedMap.Above e.0 (drop_recent curr lags) =
      All-Above e.0 (drop_recent curr lags)
        (drop_recent-All (Behind e.0) curr lags (Above-All e.0 lags h.0)) in
    rw (drop_recent-cons (λ d. Unit) curr e lags)
      (kept_or-IsSorted curr e (drop_recent curr lags) a (drop_recent-IsSorted curr lags h.1))
