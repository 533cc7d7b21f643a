-- ===== src/Groups/Keys/Accepts.antt =====
-- An accepted key message goes through, and both configs of the group then encrypt with the key of
-- the group (`load_key_message` of src/config/groups/keys.cpp, `replace_keys` of
-- src/config/base.cpp).
use libsession_util.Prelude.{
  ◌≡◌, ◌⊎◌, inl, inr, refl, sym, ap, subst, ◌∙◌, true, false, not, ◌||◌, Option, none, some, List,
  [], ◌∷◌, ◌++◌, length, All, Bool-cases, if◌then◌else◌, All-append,
}
use libsession_util.Prelude.Int.{ℤ}
use libsession_util.Prelude.Result.{ok}
use libsession_util.Keys.{Bytes, bytes_ord}
use libsession_util.Config.Data.{is_nil}
use libsession_util.Config.Base.{ConfigBase, Env}
use libsession_util.Config.Base.Keyring.{among, is_front, all_32, add_key, add_keys, replace_keys}
use libsession_util.Groups.Keys.{
  KeyInfo, key_lt, Keys, back, is_known, is_stale, insert_sorted, unexpired, newest_first,
  group_keys, group_enc_key, remove_expired, add_active, insert_key,
}
use libsession_util.Groups.Keys.Loads.{
  Group, drop_pending, insert_keys, note_generation, share_keys, accept, settles,
}
use libsession_util.Groups.Keys.Expiry.{unexpired-EndsIn}
use libsession_util.Groups.Keys.Laws.{
  IsWell, Is32, insert_key-IsWell, remove_expired-IsWell, add_active-IsSorted,
}

add_key_returns :
    (env : Env) (k : Bytes) (c : ConfigBase) (h : Bytes) (t : List Bytes)
    → length k ≡ 32
    → c.keys ≡ h ∷ t
    → (c' : ConfigBase) × (add_key env k false false c ≡ ok c')
      × (js : List Bytes) × (c'.keys ≡ h ∷ js)
unfolding add_key
add_key_returns env k c h t l e = elim (Bool-cases (is_front k c.keys || among k c.keys)) [
  | inl p ↦ (c, rw (l, p) refl, t, e)
  | inr p ↦ (
    record c { keys = c.keys ++ (k ∷ []) },
    rw (l, p) refl,
    t ++ (k ∷ []),
    ap (λ z. z ++ (k ∷ [])) e,
  )
]

add_keys_return :
    (env : Env) (ks : List Bytes) (c : ConfigBase) (h : Bytes) (t : List Bytes)
    → All (λ k. length k ≡ 32) ks
    → c.keys ≡ h ∷ t
    → (c' : ConfigBase) × (add_keys env ks c ≡ ok c') × (js : List Bytes) × (c'.keys ≡ h ∷ js)
unfolding add_keys
add_keys_return env [] c h t l e = (c, refl, t, e)
add_keys_return env (k ∷ ks) c h t l e =
    let (c1, p, js, q) = add_key_returns env k c h t l.0 e in
    let (c2, r, is, s) = add_keys_return env ks c1 h js l.1 q in (c2, rw p r, is, s)

all_32_of_All : (ks : List Bytes) → All (λ k. length k ≡ 32) ks → all_32 ks ≡ true
all_32_of_All [] h = refl
all_32_of_All (k ∷ ks) h = rw (h.0, all_32_of_All ks h.1) refl

-- `replace_keys` with keys of 32 bytes that need not be pushed: the first of them is in front.
pub replace_keys_returns :
    (env : Env) (k : Bytes) (ks : List Bytes) (c : ConfigBase)
    → All (λ j. length j ≡ 32) (k ∷ ks)
    → (c' : ConfigBase) × (replace_keys env (k ∷ ks) false c ≡ ok c')
      × (js : List Bytes) × (c'.keys ≡ k ∷ js)
unfolding replace_keys add_keys add_key among
replace_keys_returns env k ks c l =
    let c1 : ConfigBase = record c { keys = k ∷ [] } in
    let (c2, r, js, s) = add_keys_return env ks c1 k [] l.1 refl in
    (c2, rw (l.0, all_32_of_All ks l.1, r) refl, js, s)

newest_first-back :
    (k : KeyInfo) (ks : List KeyInfo)
    → (js : List Bytes) × (newest_first (k ∷ ks) ≡ (back k ks).key ∷ js)
newest_first-back k [] = ([], refl)
newest_first-back k (j ∷ ks) =
    let (js, p) = newest_first-back j ks in (js ++ (k.key ∷ []), ap (λ z. z ++ (k.key ∷ [])) p)

newest_first-All : (ks : List KeyInfo) → All Is32 ks → All (λ k. length k ≡ 32) (newest_first ks)
newest_first-All [] h = tt
newest_first-All (k ∷ ks) h =
    All-append _ (newest_first ks) (k.key ∷ []) (newest_first-All ks h.1) (h.0, tt)

-- With a key, the first of `group_keys()` is that of `group_enc_key()`, and all have 32 bytes.
group_keys_front :
    (g : Keys) (k : KeyInfo) (ks : List KeyInfo)
    → g.keys ≡ k ∷ ks
    → All Is32 g.keys
    → length g.pending_key ≡ 32
    → (b : Bytes) × (bs : List Bytes) × (group_keys g ≡ b ∷ bs)
      × (group_enc_key g ≡ ok b)
      × All (λ k. length k ≡ 32) (b ∷ bs)
unfolding group_keys group_enc_key
group_keys_front g k ks e w l =
    let (js, p) = newest_first-back k ks in
    let q : newest_first g.keys ≡ (back k ks).key ∷ js = ap newest_first e ∙ p in
    let all = newest_first-All g.keys w in
    elim (Bool-cases (is_nil g.pending_key_config)) [
      | inl n ↦ (
        (back k ks).key,
        js,
        rw (n, q) refl,
        rw (n, e) refl,
        subst (All (λ k. length k ≡ 32)) q all,
      )
      | inr n ↦ (g.pending_key, newest_first g.keys, rw n refl, rw n refl, (l, all))
    ]

-- The keys are not empty, and the pending key is `p`.
abbrev HasKeys : Bytes → Keys → Type 0
HasKeys p g = (k : KeyInfo) × (ks : List KeyInfo) × (g.keys ≡ k ∷ ks) × (g.pending_key ≡ p)

known_nonempty :
    (k : KeyInfo) (ks : List KeyInfo)
    → is_known k ks ≡ true
    → (j : KeyInfo) × (js : List KeyInfo) × (ks ≡ j ∷ js)
unfolding is_known
known_nonempty k [] h = cc
known_nonempty k (j ∷ js) h = (j, js, refl)

stale_nonempty :
    (k : KeyInfo) (ks : List KeyInfo)
    → is_stale k ks ≡ true
    → (j : KeyInfo) × (js : List KeyInfo) × (ks ≡ j ∷ js)
unfolding is_stale
stale_nonempty k [] h = cc
stale_nonempty k (j ∷ js) h = (j, js, refl)

inserted_nonempty :
    (k : KeyInfo) (ks : List KeyInfo)
    → (j : KeyInfo) × (js : List KeyInfo) × (insert_sorted k ks ≡ j ∷ js)
unfolding insert_sorted
inserted_nonempty k [] = (k, [], refl)
inserted_nonempty k (i ∷ ks) = elim (Bool-cases (key_lt i k)) [
  | inl p ↦ (i, insert_sorted k ks, rw p refl)
  | inr p ↦ (k, i ∷ ks, rw p refl)
]

kept_nonempty :
    (ks : List KeyInfo) (i : KeyInfo) (is : List KeyInfo)
    → ks ≡ i ∷ is
    → (j : KeyInfo) × (js : List KeyInfo) × (unexpired ks ≡ j ∷ js)
kept_nonempty ks i is e = let (j, js, p, q) = unexpired-EndsIn i is in (j, js, ap unexpired e ∙ p)

insert_key-HasKeys :
    (hash : Bytes) (k : KeyInfo) (g : Keys) → HasKeys g.pending_key (insert_key hash k g)
unfolding insert_key remove_expired
insert_key-HasKeys hash k g = elim (Bool-cases (is_known k g.keys)) [
  | inl p ↦ let (j, js, e) = known_nonempty k g.keys p in (j, js, rw p e, rw p refl)
  | inr p ↦ elim (Bool-cases (is_stale k g.keys)) [
    | inl s ↦ let (j, js, e) = stale_nonempty k g.keys s in (j, js, rw (p, s) e, rw (p, s) refl)
    | inr s ↦
        let (i, is, d) = inserted_nonempty k g.keys in
        let (j, js, e) = kept_nonempty (insert_sorted k g.keys) i is d in
        (j, js, rw (p, s) e, rw (p, s) refl)
  ]
]

-- What the insertion of the keys of a message leads to, from a well-formed state with a pending key
-- of 32 bytes.
abbrev pub Held : Keys → Type 0
Held g = IsWell g × (length g.pending_key ≡ 32)

insert_key-Held :
    (hash : Bytes) (k : KeyInfo) (g : Keys) → Held g → Is32 k → Held (insert_key hash k g)
insert_key-Held hash k g (w, l) p =
    let (j, js, e, q) = insert_key-HasKeys hash k g in
    (insert_key-IsWell hash k g w p, ap length q ∙ l)

insert_keys-Held :
    (hash : Bytes) (ks : List KeyInfo) (g : Keys)
    → Held g
    → All Is32 ks
    → Held (insert_keys hash ks g)
unfolding insert_keys
insert_keys-Held hash [] g w l = w
insert_keys-Held hash (k ∷ ks) g w l =
    insert_keys-Held hash ks (insert_key hash k g) (insert_key-Held hash k g w l.0) l.1

insert_keys-HasKeys :
    (hash : Bytes) (k : KeyInfo) (ks : List KeyInfo) (g : Keys)
    → (j : KeyInfo) × (js : List KeyInfo) × ((insert_keys hash (k ∷ ks) g).keys ≡ j ∷ js)
unfolding insert_keys
insert_keys-HasKeys hash k [] g = let (j, js, e, q) = insert_key-HasKeys hash k g in (j, js, e)
insert_keys-HasKeys hash k (i ∷ ks) g = insert_keys-HasKeys hash i ks (insert_key hash k g)

drop_pending-Held : (ks : List KeyInfo) (g : Keys) → Held g → Held (drop_pending ks g)
unfolding drop_pending
drop_pending-Held ks g h =
    elim (settles ks g)
      as (λ b. Held (if b then (record g { pending_key_config = []; needs_dump = true }) else g)) [
        | true ↦ h
        | false ↦ h
      ]

note_generation-Held :
    (hash : Bytes) (gen : Option ℤ) (g : Keys) → Held g → Held (note_generation hash gen g)
unfolding note_generation remove_expired
note_generation-Held hash none g h = h
note_generation-Held hash (some gen) g ((s, w, a, c), l) = (
  remove_expired-IsWell (record g { active_msgs = add_active gen hash g.active_msgs }) s w
      (add_active-IsSorted gen hash g.active_msgs a),
  l,
)

-- Both configs have the key in front that the group encrypts with.
abbrev pub Shares : Group → Type 0
Shares g =
    (key : Bytes) × (group_enc_key g.keys ≡ ok key)
    × (js : List Bytes) × (is : List Bytes) × (g.info.keys ≡ key ∷ js)
    × (g.members.keys ≡ key ∷ is)

pub share_keys_returns :
    (env : Env) (g : Group) (k : KeyInfo) (ks : List KeyInfo)
    → g.keys.keys ≡ k ∷ ks
    → Held g.keys
    → (g' : Group) × (share_keys env false g ≡ ok g') × (g'.keys ≡ g.keys) × Shares g'
unfolding share_keys
share_keys_returns env g k ks e ((s, w, a, c), l) =
    let (b, bs, p, q, all) = group_keys_front g.keys k ks e w l in
    let (m, r, is, t) = replace_keys_returns env b bs g.members all in
    let (n, u, js, v) = replace_keys_returns env b bs g.info all in
    (record g { members = m; info = n }, rw (p, r, u) refl, refl, (b, q, js, is, v, t))

-- `load_key_message` with the keys that it found, of 32 bytes, on a well-formed state: it returns,
-- true if and only if there are keys, the state is well formed again, and if there are keys both
-- configs of the group encrypt with the key that is now the group's.
pub accept_lem :
    (env : Env) (hash : Bytes) (ks : List KeyInfo) (max_gen : Option ℤ) (g : Group)
    → IsWell g.keys
    → length g.keys.pending_key ≡ 32
    → All Is32 ks
    → (g' : Group) × (accept env hash ks max_gen g ≡ ok (g', not (is_nil ks)))
      × IsWell g'.keys
      × ((is_nil ks ≡ true) ⊎ Shares g')
unfolding accept
accept_lem env hash [] max_gen g w l all =
    let h =
      note_generation-Held hash max_gen (drop_pending [] g.keys)
        (drop_pending-Held [] g.keys (w, l)) in
    (record g { keys = note_generation hash max_gen (drop_pending [] g.keys) }, refl, h.0, inl refl)
accept_lem env hash (k ∷ ks) max_gen g w l all =
    let d = drop_pending (k ∷ ks) g.keys in
    let h = insert_keys-Held hash (k ∷ ks) d (drop_pending-Held (k ∷ ks) g.keys (w, l)) all in
    let (j, js, e) = insert_keys-HasKeys hash k ks d in
    let (g', p, q, s) =
      share_keys_returns env (record g { keys = insert_keys hash (k ∷ ks) d }) j js e h in
    (g', rw p refl, subst IsWell (sym q) h.0, inr s)
