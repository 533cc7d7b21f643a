-- ===== src/Config/Base/Push/Reload.antt =====
-- What `init` reads of the lists of hashes and of the multiparts that `make_dump` wrote
-- (src/config/base.cpp).
use libsession_util.Prelude.{
  ℕ, ◌*◌, ◌/◌, ◌≡◌, refl, sym, ap, subst, ◌∙◌, Bool, true, false, ◌||◌, ◌==◌, none, some, List, [],
  ◌∷◌, ◌++◌, append-nil, append_assoc, length, ltb, All, Bool-cases, inl, inr, if◌then◌else◌, arith,
}
use libsession_util.Prelude.Result.{ok}
use libsession_util.Order.{less, less_asymm}
use libsession_util.Keys.{Bytes, bytes_ord, list_lt}
use libsession_util.Containers.SortedMap
use libsession_util.Containers.SortedSet
use libsession_util.Config.Base.{ticks_per_ms, PartialMessage, PartialMessages, Multiparts}
use libsession_util.Config.Base.Push.Dump.{part_rows, parts_dict, dump_multiparts, text_list}
use libsession_util.Config.Base.Push.Load.{read_set, load_parts, load_record, load_multiparts}

-- The elements behind a prefix of a set are above all of its elements.
Above-middle :
    (x y : Bytes) (acc s : List Bytes) → SortedSet.Above x (acc ++ y ∷ s) → less x y ≡ true
Above-middle x y [] s h = h.0
Above-middle x y (z ∷ acc) s h = Above-middle x y acc s h.1

insert_last :
    (x : Bytes) (acc s : List Bytes)
    → SortedSet.IsSorted (acc ++ x ∷ s)
    → SortedSet.insert x acc ≡ acc ++ x ∷ []
unfolding SortedSet.insert
insert_last x [] s h = refl
insert_last x (y ∷ acc) s h =
    let below : less y x ≡ true = Above-middle y x acc s h.0 in
    rw (below, less_asymm y x below) (ap (λ t. y ∷ t) (insert_last x acc s h.1))

read_set-text_list :
    (s acc : List Bytes)
    → SortedSet.IsSorted (acc ++ s)
    → read_set (text_list s) acc ≡ ok (acc ++ s)
read_set-text_list [] acc h = ap ok (sym (append-nil acc))
read_set-text_list (x ∷ s) acc h =
    let moved : (acc ++ x ∷ []) ++ s ≡ acc ++ x ∷ s = append_assoc acc (x ∷ []) s in
    rw (insert_last x acc s h)
      (read_set-text_list s (acc ++ x ∷ []) (subst SortedSet.IsSorted (sym moved) h) ∙ ap ok moved)

-- A set of hashes comes back from its list.
pub read_set-text_list_lem :
    (s : List Bytes) → SortedSet.IsSorted s → read_set (text_list s) [] ≡ ok s
read_set-text_list_lem s h = read_set-text_list s [] h

load_parts-part_rows : (ps : List PartialMessage) → load_parts (part_rows ps) ≡ ok ps
unfolding load_parts
load_parts-part_rows [] = refl
load_parts-part_rows (p ∷ ps) = rw (load_parts-part_rows ps) refl

-- A time without its part of a millisecond.
abbrev pub whole_ms : ℕ → ℕ
whole_ms t = t / ticks_per_ms * ticks_per_ms

-- The record that comes back: a set that is done is no longer, and the expiry is in milliseconds.
abbrev pub reloaded : PartialMessages → PartialMessages
reloaded p =
    let left = (if p.done then 0 else p.size) in
    record {
      done = false;
      size = left;
      parts = if ltb 0 left then p.parts else [];
      expiry = whole_ms p.expiry;
    }

reload :
    (later : ℕ) (b : Bool) (n : ℕ) (ps : List PartialMessage) (t : ℕ)
    → load_record later (parts_dict (record { done = b; size = n; parts = ps; expiry = t }))
      ≡ ok (
          if ltb (whole_ms t) later
          then none
          else some (reloaded (record { done = b; size = n; parts = ps; expiry = t })))
unfolding load_record list_lt
reload later true n ps t = elim (Bool-cases (ltb (whole_ms t) later)) [
  | inl e ↦ rw e refl
  | inr e ↦ rw e refl
]
reload later false n ps t = elim (Bool-cases (ltb (whole_ms t) later)) [
  | inl e ↦ rw e refl
  | inr e ↦ elim (Bool-cases (ltb 0 n)) [
    | inl q ↦ rw (e, q) (rw (load_parts-part_rows ps) refl)
    | inr q ↦ rw (e, q) refl
  ]
]

load_record-parts_dict :
    (later : ℕ) (p : PartialMessages)
    → load_record later (parts_dict p)
      ≡ ok (if ltb (whole_ms p.expiry) later then none else some (reloaded p))
load_record-parts_dict later p = reload later p.done p.size p.parts p.expiry

-- The multiparts that come back: those that have expired neither when they were dumped nor when
-- they are loaded.
abbrev pub reloaded_all : ℕ → ℕ → Multiparts → Multiparts
reloaded_all now later [] = []
reloaded_all now later ((h, p) ∷ m) =
    if ltb p.expiry now || ltb (whole_ms p.expiry) later
    then reloaded_all now later m
    else (h, reloaded p) ∷ reloaded_all now later m

-- The same for a map: a key above all others is assigned at the end.
Above-middle_map :
    (k j : Bytes) (v : PartialMessages) (acc m : Multiparts)
    → SortedMap.Above k (acc ++ (j, v) ∷ m)
    → less k j ≡ true
Above-middle_map k j v [] m h = h.0
Above-middle_map k j v (e ∷ acc) m h = Above-middle_map k j v acc m h.1

assign_last :
    (k : Bytes) (v : PartialMessages) (acc m : Multiparts)
    → SortedMap.IsSorted (acc ++ (k, v) ∷ m)
    → SortedMap.assign k v acc ≡ acc ++ (k, v) ∷ []
unfolding SortedMap.assign
assign_last k v [] m h = refl
assign_last k v (e ∷ acc) m h =
    let below : less e.0 k ≡ true = Above-middle_map e.0 k v acc m h.0 in
    rw (below, less_asymm e.0 k below) (ap (λ t. e ∷ t) (assign_last k v acc m h.1))

reloaded_all-Above :
    (now later : ℕ) (k : Bytes) (m : Multiparts)
    → SortedMap.Above k m
    → SortedMap.Above k (reloaded_all now later m)
reloaded_all-Above now later k [] h = tt
reloaded_all-Above now later k ((j, p) ∷ m) h =
    elim (Bool-cases (ltb p.expiry now || ltb (whole_ms p.expiry) later)) [
      | inl e ↦ rw e (reloaded_all-Above now later k m h.1)
      | inr e ↦ rw e (h.0, reloaded_all-Above now later k m h.1)
    ]

reloaded_all-IsSorted :
    (now later : ℕ) (m : Multiparts)
    → SortedMap.IsSorted m
    → SortedMap.IsSorted (reloaded_all now later m)
reloaded_all-IsSorted now later [] h = tt
reloaded_all-IsSorted now later ((j, p) ∷ m) h =
    elim (Bool-cases (ltb p.expiry now || ltb (whole_ms p.expiry) later)) [
      | inl e ↦ rw e (reloaded_all-IsSorted now later m h.1)
      | inr e ↦ rw e (reloaded_all-Above now later j m h.0, reloaded_all-IsSorted now later m h.1)
    ]

-- Multiparts have the hash of a message as their key.
abbrev pub HasHashKey : Bytes × PartialMessages → Type 0
HasHashKey e = length e.0 ≡ 32

module _ (now later : ℕ) (j : Bytes) (p : PartialMessages) (m acc : Multiparts)
    (size : length j ≡ 32) where
  -- One entry of the dict: it was left out, it is left out now, or it is restored.
  left_out :
      ltb p.expiry now ≡ true
      → load_multiparts later (dump_multiparts now ((j, p) ∷ m)) acc
        ≡ load_multiparts later (dump_multiparts now m) acc
  unfolding dump_multiparts
  left_out e = rw e refl

  skipped :
      ltb p.expiry now ≡ false
      → ltb (whole_ms p.expiry) later ≡ true
      → load_multiparts later (dump_multiparts now ((j, p) ∷ m)) acc
        ≡ load_multiparts later (dump_multiparts now m) acc
  unfolding dump_multiparts load_multiparts
  skipped e q =
      let long : (length j == 32) ≡ true = ground (arith, size) in
      rw e (rw (long, load_record-parts_dict later p, q) refl)

  restored :
      ltb p.expiry now ≡ false
      → ltb (whole_ms p.expiry) later ≡ false
      → load_multiparts later (dump_multiparts now ((j, p) ∷ m)) acc
        ≡ load_multiparts later (dump_multiparts now m) (SortedMap.assign j (reloaded p) acc)
  unfolding dump_multiparts load_multiparts
  restored e q =
      let long : (length j == 32) ≡ true = ground (arith, size) in
      rw e (rw (long, load_record-parts_dict later p, q) refl)

load_multiparts-dump :
    (now later : ℕ) (m acc : Multiparts)
    → All HasHashKey m
    → SortedMap.IsSorted (acc ++ reloaded_all now later m)
    → load_multiparts later (dump_multiparts now m) acc ≡ ok (acc ++ reloaded_all now later m)
load_multiparts-dump now later [] acc k h =
    unfold load_multiparts dump_multiparts in ap ok (sym (append-nil acc))
load_multiparts-dump now later ((j, p) ∷ m) acc k h =
    let all = reloaded_all now later m in
    let next : Bool → Multiparts = λ b. if b then all else (j, reloaded p) ∷ all in
    let same_parts : (b : Bool)
        → (ltb p.expiry now || ltb (whole_ms p.expiry) later) ≡ b
        → reloaded_all now later ((j, p) ∷ m) ≡ next b =
      λ b e. ap next e in
    elim (Bool-cases (ltb p.expiry now)) [
      | inl e ↦
          let q = same_parts true (rw e refl) in
          left_out now later j p m acc k.0 e
          ∙ load_multiparts-dump now later m acc k.1
              (subst (λ t. SortedMap.IsSorted (acc ++ t)) q h)
          ∙ ap (λ t. ok (acc ++ t)) (sym q)
      | inr e ↦ elim (Bool-cases (ltb (whole_ms p.expiry) later)) [
        | inl i ↦
            let q = same_parts true (rw (e, i) refl) in
            skipped now later j p m acc k.0 e i
            ∙ load_multiparts-dump now later m acc k.1
                (subst (λ t. SortedMap.IsSorted (acc ++ t)) q h)
            ∙ ap (λ t. ok (acc ++ t)) (sym q)
        | inr i ↦
            let q = same_parts false (rw (e, i) refl) in
            let h' : SortedMap.IsSorted (acc ++ (j, reloaded p) ∷ all) =
              subst (λ t. SortedMap.IsSorted (acc ++ t)) q h in
            let moved : (acc ++ (j, reloaded p) ∷ []) ++ all ≡ acc ++ (j, reloaded p) ∷ all =
              append_assoc acc ((j, reloaded p) ∷ []) all in
            restored now later j p m acc k.0 e i
            ∙ ap (load_multiparts later (dump_multiparts now m))
                (assign_last j (reloaded p) acc all h')
            ∙ load_multiparts-dump now later m (acc ++ (j, reloaded p) ∷ []) k.1
                (subst SortedMap.IsSorted (sym moved) h')
            ∙ ap ok (moved ∙ ap (λ t. acc ++ t) (sym q))
      ]
    ]

-- The multiparts come back from their dict.
pub load_multiparts-dump_multiparts :
    (now later : ℕ) (m : Multiparts)
    → All HasHashKey m
    → SortedMap.IsSorted m
    → load_multiparts later (dump_multiparts now m) [] ≡ ok (reloaded_all now later m)
load_multiparts-dump_multiparts now later m k h =
    load_multiparts-dump now later m [] k (reloaded_all-IsSorted now later m h)
