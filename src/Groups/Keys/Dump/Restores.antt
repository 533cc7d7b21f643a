-- ===== src/Groups/Keys/Dump/Restores.antt =====
-- Loading a dump restores the state (`make_dump` and `load_dump` of src/config/groups/keys.cpp).
use libsession_util.Prelude.{
  ◌≡◌, inl, inr, refl, sym, ap, ◌∙◌, true, Option, none, some, List, [], ◌∷◌, ◌++◌, length, All,
  arith, Bool, Bool-cases, if◌then◌else◌, append_assoc, append-nil,
}
use libsession_util.Prelude.Int.{ℤ}
use libsession_util.Prelude.Result.{ok}
use libsession_util.Order.{less, less_asymm}
use libsession_util.Keys.{Bytes, nat_ord, int_ord, int_trans, bytes_ord, list_lt, list_trans}
use libsession_util.Containers.SortedMap
use libsession_util.Containers.SortedSet
use libsession_util.Config.Data.{is_nil}
use libsession_util.Config.Message.Read.{skip_until}
use libsession_util.Groups.Keys.{KeyInfo, Keys, insert_all}
use libsession_util.Groups.Keys.Ordered.{key_ord}
use libsession_util.Groups.Keys.Laws.{Is32, IsWell}
use libsession_util.Groups.Keys.Dump.{
  hash_texts, active_rows, key_dict, key_rows, make_keys_dump, read_hash_texts, add_row,
  load_active, load_key_info, is_next, load_keys, load_pending, load_dump,
}

read_hash_texts-hash_texts : (hs : List Bytes) → read_hash_texts (hash_texts hs) ≡ ok hs
unfolding read_hash_texts
read_hash_texts-hash_texts [] = refl
read_hash_texts-hash_texts (h ∷ hs) = rw (read_hash_texts-hash_texts hs) refl

load_key_info-key_dict : (k : KeyInfo) → Is32 k → load_key_info (key_dict k) ≡ ok k
unfolding load_key_info skip_until list_lt
load_key_info-key_dict k h = rw h refl

-- The keys go on from the one before them.
abbrev Goes : Option KeyInfo → List KeyInfo → Type 0
Goes none ks = Unit
Goes (some p) ks = SortedSet.Above p ks

first_is_next :
    (prev : Option KeyInfo) (k : KeyInfo) (ks : List KeyInfo)
    → Goes prev (k ∷ ks)
    → is_next prev k ≡ true
first_is_next none k ks h = refl
first_is_next (some p) k ks h = h.0

load_keys-key_rows :
    (prev : Option KeyInfo) (ks : List KeyInfo)
    → Goes prev ks
    → SortedSet.IsSorted ks
    → All Is32 ks
    → load_keys prev (key_rows ks) ≡ ok ks
unfolding load_keys
load_keys-key_rows prev [] g s w = refl
load_keys-key_rows prev (k ∷ ks) g s w =
    rw
      (
        load_key_info-key_dict k w.0,
        first_is_next prev k ks g,
        load_keys-key_rows (some k) ks s.0 s.1 w.1,
      )
      refl

insert-last :
    (x : Bytes) (s : List Bytes)
    → All (λ y. less y x ≡ true) s
    → SortedSet.insert x s ≡ s ++ (x ∷ [])
unfolding SortedSet.insert
insert-last x [] h = refl
insert-last x (y ∷ s) h = rw (less_asymm y x h.0, h.0, insert-last x s h.1) refl

below_snoc :
    (x y : Bytes) (s : List Bytes)
    → All (λ z. less z x ≡ true) s
    → less x y ≡ true
    → All (λ z. less z y ≡ true) (s ++ (x ∷ []))
below_snoc x y [] h p = (p, tt)
below_snoc x y (z ∷ s) h p = (list_trans z x y h.0 p, below_snoc x y s h.1 p)

-- Every element of the first set is below the first one of the second.
abbrev Before : List Bytes → List Bytes → Type 0
Before s [] = Unit
Before s (x ∷ t) = All (λ z. less z x ≡ true) s

snoc_keeps_order :
    (s : List Bytes) (x : Bytes) (t : List Bytes)
    → Before s (x ∷ t)
    → SortedSet.Above x t
    → Before (s ++ (x ∷ [])) t
snoc_keeps_order s x [] h a = tt
snoc_keeps_order s x (y ∷ t) h a = below_snoc x y s h a.0

nil_first : (t : List Bytes) → Before [] t
nil_first [] = tt
nil_first (x ∷ t) = tt

insert_all-append : (t s : List Bytes) → Before s t → SortedSet.IsSorted t → insert_all t s ≡ s ++ t
unfolding insert_all
insert_all-append [] s b h = sym (append-nil s)
insert_all-append (x ∷ t) s b h =
    ap (insert_all t) (insert-last x s b)
    ∙ insert_all-append t (s ++ (x ∷ [])) (snoc_keeps_order s x t b h.0) h.1
    ∙ append_assoc s (x ∷ []) t

-- Every generation of the first map is below the first one of the second.
abbrev Earlier : List (ℤ × List Bytes) → List (ℤ × List Bytes) → Type 0
Earlier m [] = Unit
Earlier m ((gen, hs) ∷ n) = All (λ e. less e.0 gen ≡ true) m

assign-last :
    (gen : ℤ) (hs : List Bytes) (m : List (ℤ × List Bytes))
    → All (λ e. less e.0 gen ≡ true) m
    → SortedMap.assign gen hs m ≡ m ++ ((gen, hs) ∷ [])
unfolding SortedMap.assign
assign-last gen hs [] h = refl
assign-last gen hs ((g, x) ∷ m) h = rw (less_asymm g gen h.0, h.0, assign-last gen hs m h.1) refl

find_later :
    (gen : ℤ) (m : List (ℤ × List Bytes))
    → All (λ e. less e.0 gen ≡ true) m
    → SortedMap.find gen m ≡ none
unfolding SortedMap.find
find_later gen [] h = refl
find_later gen ((g, x) ∷ m) h = ground (arith, find_later gen m h.1, h.0)

snoc_keeps_generations :
    (m : List (ℤ × List Bytes)) (gen : ℤ) (hs : List Bytes) (n : List (ℤ × List Bytes))
    → Earlier m ((gen, hs) ∷ n)
    → SortedMap.Above gen n
    → Earlier (m ++ ((gen, hs) ∷ [])) n
snoc_keeps_generations m gen hs [] h a = tt
snoc_keeps_generations [] gen hs ((g, x) ∷ n) h a = (a.0, tt)
snoc_keeps_generations ((i, y) ∷ m) gen hs ((g, x) ∷ n) h a =
    (int_trans i gen g h.0 a.0, snoc_keeps_generations m gen hs ((g, x) ∷ n) h.1 a)

add_row-last :
    (gen : ℤ) (hs : List Bytes) (m : List (ℤ × List Bytes))
    → All (λ e. less e.0 gen ≡ true) m
    → SortedSet.IsSorted hs
    → add_row gen hs m ≡ m ++ ((gen, hs) ∷ [])
unfolding add_row
add_row-last gen hs m h s =
    rw (find_later gen m h, insert_all-append hs [] (nil_first hs) s) (assign-last gen hs m h)

load_active-active_rows :
    (m n : List (ℤ × List Bytes))
    → Earlier m n
    → SortedMap.IsSorted n
    → All (λ e. SortedSet.IsSorted e.1) n
    → load_active m (active_rows n) ≡ ok (m ++ n)
unfolding load_active
load_active-active_rows m [] h s t = ap ok (sym (append-nil m))
load_active-active_rows m ((gen, hs) ∷ n) h s t =
    rw (read_hash_texts-hash_texts hs, add_row-last gen hs m h t.0)
      (load_active-active_rows (m ++ ((gen, hs) ∷ [])) n (snoc_keeps_generations m gen hs n h s.0)
          s.1 t.1
        ∙ ap ok (append_assoc m ((gen, hs) ∷ []) n))

-- What loading a dump of `g` makes of an object without keys: the keys and the messages in use are
-- those of `g`, and so is what is pending, if anything is.
abbrev pub restored_if : Bool → Keys → Keys → Keys
restored_if b g start =
    if b then record start { active_msgs = g.active_msgs; keys = g.keys } else record start {
      active_msgs = g.active_msgs;
      keys = g.keys;
      pending_key_config = g.pending_key_config;
      pending_gen = g.pending_gen;
      pending_key = g.pending_key;
    }

abbrev pub restored : Keys → Keys → Keys
restored g start = restored_if (is_nil g.pending_key_config) g start

nil_generations : (n : List (ℤ × List Bytes)) → Earlier [] n
nil_generations [] = tt
nil_generations ((gen, hs) ∷ n) = tt

-- Loading the dump of a well-formed state whose sets of hashes are in order, with a pending key of
-- 32 bytes, into an object without messages returns; it restores the keys, the messages in use and
-- the pending message with its generation and key, if there is one, and changes nothing else.
pub load_dump-make_keys_dump :
    (g start : Keys)
    → IsWell g
    → All (λ e. SortedSet.IsSorted e.1) g.active_msgs
    → length g.pending_key ≡ 32
    → start.active_msgs ≡ []
    → load_dump (make_keys_dump g) start ≡ ok (restored g start)
unfolding load_dump make_keys_dump load_pending skip_until list_lt
load_dump-make_keys_dump g start (s, w, a, c) t l e =
    let p : load_active start.active_msgs (active_rows g.active_msgs) ≡ ok g.active_msgs =
      rw e (load_active-active_rows [] g.active_msgs (nil_generations g.active_msgs) a t) in
    let q : load_keys none (key_rows g.keys) ≡ ok g.keys = load_keys-key_rows none g.keys tt s w in
    elim (Bool-cases (is_nil g.pending_key_config)) [
      | inl n ↦ rw (p, q, n) refl
      | inr n ↦ rw (p, q, n, l) refl
    ]
