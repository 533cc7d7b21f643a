-- ===== src/Config/Message/Merge/Progress.antt =====
-- A merge always has a message that is not redundant: what the source asserts by `curr_confs >= 1`.
use libsession_util.Prelude.{
  ◌≡◌, refl, sym, ap, subst, Bool, true, false, not, ◌||◌, List, [], ◌∷◌, ◌++◌, ℕ, All, Bool-cases,
  inl, inr, arith, All-append, ◌∙◌, ◌^◌, ◌-◌,
}
use libsession_util.Prelude.Int.{ℤ, pos, negsuc, ltb_ℤ, leb_ℤ, ◌+ℤ◌}
use libsession_util.Order.{same, eq_of_same}
use libsession_util.Keys.{Bytes, bytes_ord, int_ord, pair_ord}
use libsession_util.Containers.SortedMap
use libsession_util.Config.Data.{is_nil}
use libsession_util.Config.Message.{Codec, Message, SeqnoHash, LaggedDiffs, Verifier, Signer, seqno}
use libsession_util.Prelude.Result.{ok, Ensures-eq_ok}
use libsession_util.Config.Message.Earlier.{LagsBelow, HasEarlierLags, parse_message-HasEarlierLags}
use libsession_util.Config.Message.Merge.Parties.{load_all-All, AllLoaded}
use libsession_util.Config.Message.Read.{is_set}
use libsession_util.Config.Message.Merge.{Handler, load_all, marked}
use libsession_util.Config.Message.Merge.Select.{
  Marked, includes, duplicates, any_of, is_redundant, mark_redundant, higher, max_from, max_seqno,
  mark_old, add_int64, live,
}

below_of_found :
    (k : SeqnoHash) (s : ℤ) (lags : LaggedDiffs)
    → LagsBelow s lags
    → is_set (SortedMap.find k lags) ≡ true
    → ltb_ℤ k.0 s ≡ true
unfolding SortedMap.find
below_of_found k s [] h e = cc
below_of_found k s ((j, d) ∷ lags) h e = elim (Bool-cases (same k j)) [
  | inl p ↦ subst (λ (i : SeqnoHash). ltb_ℤ i.0 s ≡ true) (sym (eq_of_same k j p)) h.0
  | inr p ↦ below_of_found k s lags h.1 (ground arith)
]

-- A message that includes another one has a higher sequence number.
below_of_includes :
    (c d : Message) → HasEarlierLags d → includes c d ≡ true → ltb_ℤ (seqno c) (seqno d) ≡ true
unfolding includes
below_of_includes c d h e = below_of_found c.seqno_hash_ (seqno d) d.lagged_diffs_ h e

duplicates-seqno : (c d : Message) → duplicates c d ≡ true → seqno d ≡ seqno c
unfolding duplicates
duplicates-seqno c d e = ap (λ (k : SeqnoHash). k.0) (eq_of_same d.seqno_hash_ c.seqno_hash_ e)

abbrev pub AtMost : ℤ → List Message → Type 0
AtMost top = All (λ m. ltb_ℤ top (seqno m) ≡ false)

abbrev AllBelow : ℤ → List Message → Type 0
AllBelow top = All (λ m. ltb_ℤ (seqno m) top ≡ true)

any_of-false {ℓ} :
    {A : Type ℓ} (p : A → Bool) (xs : List A) → All (λ a. p a ≡ false) xs → any_of p xs ≡ false
any_of-false p [] h = refl
any_of-false p (x ∷ xs) h = rw h.0 (any_of-false p xs h.1)

clash {ℓ} : {A : Type ℓ} (b : Bool) → b ≡ false → b ≡ true → A
clash b p q = absurd cc

not_below : (a b top : ℤ) → ltb_ℤ a top ≡ false → ltb_ℤ top b ≡ false → ltb_ℤ a b ≡ false
not_below a b top p q = ground arith

not_above : (a top : ℤ) → ltb_ℤ a top ≡ true → ltb_ℤ top a ≡ false
not_above a top p = ground arith

-- An integer that an `int64_t` holds.
abbrev pub IsInt64 : ℤ → Type 0
IsInt64 i = (ltb_ℤ i (negsuc (2 ^ 63 - 1)) ≡ false) × (ltb_ℤ i (pos (2 ^ 63)) ≡ true)

add_int64_lem : (a b : ℤ) → IsInt64 (a +ℤ b) → add_int64 a b ≡ a +ℤ b
unfolding add_int64
add_int64_lem a b h = rw (h.1, h.0) refl

above_sum :
    (a lag top : ℤ) → ltb_ℤ (pos 0) lag ≡ true → ltb_ℤ a top ≡ false → leb_ℤ (a +ℤ lag) top ≡ false
unfolding ◌+ℤ◌
above_sum a lag top p q = ground arith

pub not_old :
    (a lag top : ℤ)
    → ltb_ℤ (pos 0) lag ≡ true
    → IsInt64 (a +ℤ lag)
    → ltb_ℤ a top ≡ false
    → leb_ℤ (add_int64 a lag) top ≡ false
not_old a lag top p i q = ap (λ s. leb_ℤ s top) (add_int64_lem a lag i) ∙ above_sum a lag top p q

drop_first : (b c : Bool) → b ≡ true → (not b || c) ≡ true → c ≡ true
drop_first true c p h = h
drop_first false c p h = cc

all_three : (a b c : Bool) → a ≡ false → b ≡ false → c ≡ false → ((a || b) || c) ≡ false
all_three a b c p q r = rw (p, q, r) refl

module _ (m : Message) where
  not_duplicate :
      (c : Message) (top : ℤ)
      → ltb_ℤ (seqno m) top ≡ false
      → ltb_ℤ (seqno c) top ≡ true
      → duplicates m c ≡ false
  not_duplicate c top p q = elim (Bool-cases (duplicates m c)) [
    | inl d ↦
        clash (ltb_ℤ (seqno c) top)
          (subst (λ i. ltb_ℤ i top ≡ false) (sym (duplicates-seqno m c d)) p) q
    | inr d ↦ d
  ]

  not_included :
      (c : Message) → HasEarlierLags c → ltb_ℤ (seqno m) (seqno c) ≡ false → includes m c ≡ false
  not_included c h e = ground (arith, below_of_includes m c h)

  no_later :
      (top : ℤ) (ms : List Message)
      → ltb_ℤ (seqno m) top ≡ false
      → AtMost top ms
      → All HasEarlierLags ms
      → any_of (includes m) ms ≡ false
  no_later top [] e ha hl = refl
  no_later top (c ∷ cs) e ha hl =
      let p : ltb_ℤ (seqno m) (seqno c) ≡ false = not_below (seqno m) (seqno c) top e ha.0 in
      rw (not_included c hl.0 p) (no_later top cs e ha.1 hl.1)

  no_earlier :
      (top : ℤ) (ms : List Message)
      → ltb_ℤ (seqno m) top ≡ false
      → AllBelow top ms
      → All HasEarlierLags ms
      → any_of (λ c. includes m c || duplicates m c) ms ≡ false
  no_earlier top [] e ha hl = refl
  no_earlier top (c ∷ cs) e ha hl =
      let p : ltb_ℤ (seqno m) (seqno c) ≡ false =
        not_below (seqno m) (seqno c) top e (not_above (seqno c) top ha.0) in
      rw (not_included c hl.0 p, not_duplicate c top e ha.0) (no_earlier top cs e ha.1 hl.1)

live_tail :
    (m : Message) (b : Bool) (ms : List Marked)
    → is_nil (live ms) ≡ false
    → is_nil (live ((m, b) ∷ ms)) ≡ false
unfolding live
live_tail m true ms h = h
live_tail m false ms h = refl

live_head :
    (m : Message) (b : Bool) (ms : List Marked) → b ≡ false → is_nil (live ((m, b) ∷ ms)) ≡ false
unfolding live
live_head m b ms h = rw h refl

abbrev pub Attains : ℤ → List Message → Type 0
Attains top ms = any_of (λ m. not (ltb_ℤ (seqno m) top)) ms ≡ true

module _ (lag top : ℤ) (hlag : ltb_ℤ (pos 0) lag ≡ true) where
  live_exists :
      (earlier ms : List Message)
      → AllBelow top earlier
      → All HasEarlierLags earlier
      → AtMost top ms
      → All HasEarlierLags ms
      → All (λ m. IsInt64 (seqno m +ℤ lag)) ms
      → Attains top ms
      → is_nil (live (mark_old lag top (mark_redundant earlier ms))) ≡ false
  unfolding mark_old mark_redundant is_redundant
  live_exists earlier [] ea el ha hl hi t = cc
  live_exists earlier (m ∷ ms) ea el ha hl hi t = elim (Bool-cases (ltb_ℤ (seqno m) top)) [
    | inl p ↦ live_tail m _ _ (
        live_exists (earlier ++ (m ∷ [])) ms (All-append _ earlier (m ∷ []) ea (p, tt))
          (All-append _ earlier (m ∷ []) el (hl.0, tt)) ha.1 hl.1 hi.1 (drop_first _ _ p t))
    | inr p ↦ live_head m _ _ (
        all_three _ _ _ (no_earlier m top earlier p ea el) (no_later m top ms p ha.1 hl.1)
          (not_old (seqno m) lag top hlag hi.0 p))
  ]

pub max_from_above : (top : ℤ) (ms : List Message) → ltb_ℤ (max_from top ms) top ≡ false
unfolding max_from
max_from_above top [] = ground arith
max_from_above top (m ∷ ms) = ground (arith, max_from_above (higher top (seqno m)) ms)

pub AtMost-max_from : (top : ℤ) (ms : List Message) → AtMost (max_from top ms) ms
unfolding max_from
AtMost-max_from top [] = tt
AtMost-max_from top (m ∷ ms) = (
  ground (arith, max_from_above (higher top (seqno m)) ms),
  AtMost-max_from (higher top (seqno m)) ms,
)

pub max_from_attained :
    (top : ℤ) (ms : List Message)
    → (not (ltb_ℤ top (max_from top ms))
        || any_of (λ m. not (ltb_ℤ (seqno m) (max_from top ms))) ms)
      ≡ true
unfolding max_from
max_from_attained top [] = ground arith
max_from_attained top (m ∷ ms) = ground (arith, max_from_attained (higher top (seqno m)) ms)

-- If any message can be read, the number of lags is positive, and its sum with the sequence number of
-- each message that was read is an `int64_t`, then at least one of these messages is not redundant.
pub load_all-live_lem :
    (x : Codec) (v : Verifier) (s : Signer) (lag : ℤ) (handler : Handler) (confs : List Bytes)
    (m : Message) (ms : List Message) (bad : List ℕ)
    → ltb_ℤ (pos 0) lag ≡ true
    → load_all x v s lag handler 0 confs ≡ ok (m ∷ ms, bad)
    → All (λ m. IsInt64 (seqno m +ℤ lag)) (m ∷ ms)
    → is_nil (live (marked x v s lag handler (m ∷ ms))) ≡ false
unfolding marked max_seqno
load_all-live_lem x v s lag handler confs m ms bad hlag e hi =
    let top = max_from (seqno m) ms in
    let h : All HasEarlierLags (m ∷ ms) =
      Ensures-eq_ok (AllLoaded x v s lag handler HasEarlierLags) _ (m ∷ ms, bad)
        (load_all-All x v s lag handler HasEarlierLags
          (λ conf. parse_message-HasEarlierLags x conf v s lag false) 0 confs)
        e in
    live_exists lag top hlag [] (m ∷ ms) tt tt
      (max_from_above (seqno m) ms, AtMost-max_from (seqno m) ms) h hi
      (max_from_attained (seqno m) ms)
