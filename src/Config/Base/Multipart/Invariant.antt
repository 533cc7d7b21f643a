-- ===== src/Config/Base/Multipart/Invariant.antt =====
-- What holds of the parts that are kept: their order, and the bounds of their indices.
use libsession_util.Prelude.{
  ◌≡◌, refl, ℕ, suc, ◌+◌, ◌==◌, ◌≤◌, Bool, true, false, not, ◌&&◌, Bool-cases, inl, inr, Option,
  none, some, List, [], ◌∷◌, All, length, drop, ltb, leb, arith, if◌then◌else◌,
}
use libsession_util.Prelude.Result.{
  Result, ok, err, guard, runtime_error, guard-Ensures, Ensures, Ensures-ok, Ensures->>=,
  Ensures-eq_ok,
}
use libsession_util.Order.{less, same}
use libsession_util.Keys.{Bytes, bytes_ord}
use libsession_util.Containers.SortedMap
use libsession_util.Config.Data.{is_nil}
use libsession_util.Config.Message.Lagged.{next, read_text}
use libsession_util.Config.Wire.{finished_list}
use libsession_util.Config.Encrypt.{strip_padding}
use libsession_util.Config.Base.{
  PartialMessage, PartialMessages, Multiparts, Env, max_message_size, multipart_max_remember,
  multipart_max_wait,
}
use libsession_util.Config.Base.Multipart.{
  opened, one_byte, Part, parts_or_new, finish, insert_part, complete_parts, add_part, handle_part,
  handle_multipart, parse_part, recombine, inflate,
}

-- Indices from `lo` on, in strictly ascending order.
abbrev pub AscendsFrom : ℕ → List PartialMessage → Type 0
AscendsFrom lo [] = Unit
AscendsFrom lo (p ∷ ps) = (lo ≤ p.index) × AscendsFrom (suc p.index) ps

abbrev pub IsWell : PartialMessages → Type 0
IsWell p = AscendsFrom 0 p.parts × All (λ q. ltb q.index p.size ≡ true) p.parts

abbrev pub AllWell : Multiparts → Type 0
AllWell = All (λ e. IsWell e.1)

module _ {V : Type 0} (P : V → Type 0) where
  assign-All :
      (k : Bytes) (v : V) (m : List (Bytes × V))
      → P v
      → All (λ e. P e.1) m
      → All (λ e. P e.1) (SortedMap.assign k v m)
  unfolding SortedMap.assign
  assign-All k v [] p h = (p, tt)
  assign-All k v (e ∷ m) p h =
      elim (less k e.0)
        as (λ b.
          All (λ e. P e.1)
            (if b
              then (k, v) ∷ e ∷ m
              else if less e.0 k
              then e ∷ SortedMap.assign k v m
              else (e.0, v) ∷ m)) [
                | true ↦ (p, h)
                | false ↦
                    elim (less e.0 k)
                      as (λ b.
                        All (λ e. P e.1) (if b then e ∷ SortedMap.assign k v m else (e.0, v) ∷ m)) [
                          | true ↦ (h.0, assign-All k v m p h.1)
                          | false ↦ (p, h.1)
                        ]
              ]

  abbrev Found : Option V → Type 0
  Found none = Unit
  Found (some v) = P v

  find-All : (k : Bytes) (m : List (Bytes × V)) → All (λ e. P e.1) m → Found (SortedMap.find k m)
  unfolding SortedMap.find
  find-All k [] h = tt
  find-All k (e ∷ m) h =
      elim (same k e.0) as (λ b. Found (if b then some e.1 else SortedMap.find k m)) [
        | true ↦ h.0
        | false ↦ find-All k m h.1
      ]

-- What an insertion gives, if it gives anything.
module _ (new : PartialMessage) (size : ℕ) (fits : ltb new.index size ≡ true) where
  abbrev Inserted : ℕ → Option (List PartialMessage) → Type 0
  Inserted lo none = Unit
  Inserted lo (some r) = AscendsFrom lo r × All (λ q. ltb q.index size ≡ true) r

  Inserted-later :
      (lo : ℕ) (q : PartialMessage) (o : Option (List PartialMessage))
      → lo ≤ q.index
      → ltb q.index size ≡ true
      → Inserted (suc q.index) o
      → Inserted lo (elim o [ none ↦ none | some r ↦ some (q ∷ r) ])
  Inserted-later lo q none a b h = tt
  Inserted-later lo q (some r) a b h = ((a, h.0), (b, h.1))

  insert_part-Inserted :
      (lo : ℕ) (ps : List PartialMessage)
      → lo ≤ new.index
      → AscendsFrom lo ps
      → All (λ q. ltb q.index size ≡ true) ps
      → Inserted lo (insert_part new ps)
  unfolding insert_part
  insert_part-Inserted lo [] l a b = ((l, tt), (fits, tt))
  insert_part-Inserted lo (q ∷ qs) l a b = elim (Bool-cases (ltb q.index new.index)) [
    | inl p ↦
        rw (p, insert_part)
          (Inserted-later lo q (insert_part new qs) a.0 b.0
            (insert_part-Inserted (suc q.index) qs (ground arith) a.1 b.1))
    | inr p ↦ elim (Bool-cases (q.index == new.index)) [
      | inl e ↦ rw (p, e, insert_part) tt
      | inr e ↦ rw (p, e, insert_part) ((l, (ground arith, a.1)), (fits, b))
    ]
  ]

and_right : (a b : Bool) → (a && b) ≡ true → b ≡ true
and_right true b h = h
and_right false b h = cc

module _ (env : Env) (now : ℕ) where
  finish-IsWell : (p : PartialMessages) → IsWell (finish now multipart_max_remember p)
  unfolding finish
  finish-IsWell p = (tt, tt)

  completed_by :
      (h : Bytes) (p : PartialMessages) (m : Multiparts) (o : Option Bytes)
      → inflate env.zstd_decompress (strip_padding (recombine p.parts)) ≡ o
      → IsWell p
      → AllWell m
      → AllWell (complete_parts env now h p m).multiparts
  unfolding complete_parts
  completed_by h p m o e w a =
      elim (Bool-cases (not (same (env.codec.blake2b (recombine p.parts)) h))) [
        | inl q ↦ rw (q, complete_parts) (assign-All IsWell h p m w a)
        | inr q ↦
            elim o
                as (λ o.
                  inflate env.zstd_decompress (strip_padding (recombine p.parts)) ≡ o
                  → AllWell (complete_parts env now h p m).multiparts) [
                    | none ↦ λ e.
                        rw (q, e, complete_parts)
                          (assign-All IsWell h (finish now multipart_max_remember p) m
                            (finish-IsWell p) a)
                    | some out ↦ λ e.
                        rw (q, e, complete_parts)
                          (assign-All IsWell h (finish now multipart_max_remember p) m
                            (finish-IsWell p) a)
                  ]
              e
      ]

  add_part_by :
      (id : Bytes) (part : Part) (p : PartialMessages) (m : Multiparts)
      (o : Option (List PartialMessage))
      → (fits : ltb part.part_index p.size ≡ true)
      → insert_part (record { index = part.part_index; message_id = id; chunk = part.body }) p.parts
        ≡ o
      → Inserted
          (record { index = part.part_index; message_id = id; chunk = part.body })
          p.size
          fits
          0
          o
      → IsWell p
      → AllWell m
      → AllWell (add_part env now id part p m).multiparts
  unfolding add_part
  add_part_by id part p m none f e i w a =
      rw (e, add_part) (assign-All IsWell part.final_hash p m w a)
  add_part_by id part p m (some ps) f e i w a = elim (Bool-cases (length ps == p.size)) [
    | inl q ↦
        rw (e, q, add_part) (completed_by part.final_hash (record p { parts = ps }) m _ refl i a)
    | inr q ↦
        rw (e, q, add_part)
          (assign-All IsWell part.final_hash
            (record p { parts = ps; expiry = now + multipart_max_wait }) m i a)
  ]

  add_part-AllWell :
      (id : Bytes) (part : Part) (p : PartialMessages) (m : Multiparts)
      → ltb part.part_index p.size ≡ true
      → IsWell p
      → AllWell m
      → AllWell (add_part env now id part p m).multiparts
  add_part-AllWell id part p m f w a =
      let new : PartialMessage = record {
        index = part.part_index;
        message_id = id;
        chunk = part.body;
      } in
      add_part_by id part p m (insert_part new p.parts) f refl
        (insert_part-Inserted new p.size f 0 p.parts (omega arith) w.0 w.1) w a

  parts_or_new-IsWell : (o : Option PartialMessages) → Found IsWell o → IsWell (parts_or_new o)
  parts_or_new-IsWell none h = (tt, tt)
  parts_or_new-IsWell (some p) h = h

  nothing_left :
      (n : ℕ) (ps : List PartialMessage)
      → is_nil ps ≡ true
      → AscendsFrom 0 ps × All (λ q. ltb q.index n ≡ true) ps
  nothing_left n [] h = (tt, tt)
  nothing_left n (q ∷ ps) h = cc

  handle_part-AllWell :
      (id : Bytes) (part : Part) (m : Multiparts)
      → ltb part.part_index part.num_parts ≡ true
      → AllWell m
      → AllWell (handle_part env now id part m).multiparts
  unfolding handle_part
  handle_part-AllWell id part m f a =
      let p = parts_or_new (SortedMap.find part.final_hash m) in
      let w =
        parts_or_new-IsWell (SortedMap.find part.final_hash m)
          (find-All IsWell part.final_hash m a) in
      elim (Bool-cases p.done) [
        | inl d ↦ rw (d, handle_part) a
        | inr d ↦ elim (Bool-cases (is_nil p.parts)) [
          | inl n ↦
              rw (d, n, handle_part)
                (add_part-AllWell id part (record p { done = false; size = part.num_parts }) m f
                  (nothing_left part.num_parts p.parts n) a)
          | inr n ↦ elim (Bool-cases (part.num_parts == p.size)) [
            | inl s ↦ rw (d, n, s, handle_part) (add_part-AllWell id part p m (ground arith) w a)
            | inr s ↦ rw (d, n, s, handle_part) a
          ]
        ]
      ]

  -- The numbers of a part that is accepted fit.
  parse_part-fits :
      (message : Bytes)
      → Ensures
          (λ (t : Part). ltb t.part_index t.num_parts ≡ true)
          (parse_part env.decode_list message)
  unfolding parse_part
  parse_part-fits message =
      Ensures->>= _ (guard (leb (length message) max_message_size) runtime_error) _ (λ g.
        Ensures->>= _ (opened (env.decode_list (drop 1 message))) _ (λ l.
          Ensures->>= _ (next l) _ (λ a. Ensures->>= _ (read_text a.0) _ (λ h.
            Ensures->>= _ (guard (length h == 32) runtime_error) _ (λ g2.
              Ensures->>= _ (next a.1) _ (λ b. Ensures->>= _ (read_text b.0) _ (λ ib.
                Ensures->>= _ (next b.1) _ (λ c. Ensures->>= _ (read_text c.0) _ (λ sb.
                  Ensures->>= _ (one_byte ib) _ (λ i. Ensures->>= _ (one_byte sb) _ (λ n.
                    guard-Ensures _ (ltb 1 n && ltb i n) runtime_error _ (λ f.
                      Ensures->>= _ (next c.1) _ (λ d. Ensures->>= _ (read_text d.0) _ (λ body.
                        Ensures->>= _ (guard (not (is_nil body)) runtime_error) _ (λ g3.
                          Ensures->>= _ (guard (finished_list d.1) runtime_error) _
                            (λ g4. Ensures-ok _ _ (and_right (ltb 1 n) (ltb i n) f)))))))))))))))))

  handled_by :
      (id message : Bytes) (m : Multiparts) (r : Result Part)
      → parse_part env.decode_list message ≡ r
      → Ensures (λ (t : Part). ltb t.part_index t.num_parts ≡ true) r
      → AllWell m
      → AllWell (handle_multipart env now id message m).multiparts
  unfolding handle_multipart
  handled_by id message m (err x) e f a = rw (e, handle_multipart) a
  handled_by id message m (ok part) e f a =
      rw (e, handle_multipart)
        (handle_part-AllWell id part m (Ensures-eq_ok _ (ok part) part f refl) a)

  -- Handling a part keeps the parts of every set in ascending order of their indices, each index
  -- once and below the number of parts of the set.
  pub handle_multipart-AllWell :
      (id message : Bytes) (m : Multiparts)
      → AllWell m
      → AllWell (handle_multipart env now id message m).multiparts
  handle_multipart-AllWell id message m a =
      handled_by id message m (parse_part env.decode_list message) refl (parse_part-fits message) a
