-- ===== src/Util/Split/Laws.antt =====
-- The pieces of `split` (src/util.cpp), joined, are the text.
use libsession_util.Prelude.{
  ℕ, zero, suc, ◌+◌, ◌≡◌, ◌≤◌, ◌<◌, refl, sym, ap, ◌∙◌, true, false, ◌==◌, Option, none, some, List,
  [], ◌∷◌, ◌++◌, append_assoc, length, length-append, take, drop, All, Bool-cases, Option-cases,
  inl, inr, arith,
}
use libsession_util.Keys.{Bytes}
use libsession_util.Util.Url.{starts_with, after_one, find}
use libsession_util.Util.Split.{split_from, split}

-- The pieces with the delimiter between them, and with the delimiter behind each.
abbrev pub join : Bytes → List Bytes → Bytes
join delim [] = []
join delim (p ∷ []) = p
join delim (p ∷ q ∷ ps) = p ++ (delim ++ join delim (q ∷ ps))

abbrev glue : Bytes → List Bytes → Bytes
glue delim [] = []
glue delim (p ∷ ps) = p ++ (delim ++ glue delim ps)

join-last :
    (delim : Bytes) (ps : List Bytes) (p : Bytes) → join delim (ps ++ (p ∷ [])) ≡ glue delim ps ++ p
join-last delim [] p = refl
join-last delim (q ∷ []) p =
    sym (append_assoc q (delim ++ []) p ∙ ap (λ t. q ++ t) (append_assoc delim [] p))
join-last delim (q ∷ r ∷ ps) p =
    ap (λ t. q ++ (delim ++ t)) (join-last delim (r ∷ ps) p)
    ∙ sym (
        append_assoc q (delim ++ glue delim (r ∷ ps)) p
        ∙ ap (λ t. q ++ t) (append_assoc delim (glue delim (r ∷ ps)) p))

glue-last :
    (delim : Bytes) (ps : List Bytes) (p s : Bytes)
    → glue delim (ps ++ (p ∷ [])) ++ s ≡ glue delim ps ++ (p ++ (delim ++ s))
glue-last delim [] p s = append_assoc p (delim ++ []) s ∙ ap (λ t. p ++ t) (append_assoc delim [] s)
glue-last delim (q ∷ ps) p s =
    append_assoc q (delim ++ glue delim (ps ++ (p ∷ []))) s
    ∙ ap (λ t. q ++ t)
        (append_assoc delim (glue delim (ps ++ (p ∷ []))) s
          ∙ ap (λ t. delim ++ t) (glue-last delim ps p s)
          ∙ sym (append_assoc delim (glue delim ps) (p ++ (delim ++ s))))
    ∙ sym (append_assoc q (delim ++ glue delim ps) (p ++ (delim ++ s)))

-- A text that begins with another is that text and the rest.
starts_with-drop : (p s : Bytes) → starts_with p s ≡ true → p ++ drop (length p) s ≡ s
starts_with-drop [] s h = refl
starts_with-drop (c ∷ p) [] h = absurd (ground (arith, h))
starts_with-drop (c ∷ p) (d ∷ s) h =
    let e : c ≡ d = ground (arith, h) in
    let g : starts_with p s ≡ true = ground (arith, h) in
    ap (λ z. z ∷ (p ++ drop (length p) s)) e ∙ ap (λ z. d ∷ z) (starts_with-drop p s g)

drop-drop : {A : Type 0} (n m : ℕ) (s : List A) → drop (n + m) s ≡ drop m (drop n s)
drop-drop zero m s = let e : zero + m ≡ m = omega arith in ap (λ k. drop k s) e
drop-drop (suc n) zero [] = let e : suc n + zero ≡ suc n = omega arith in ap (λ k. drop k []) e
drop-drop (suc n) (suc m) [] =
    let e : suc n + suc m ≡ suc (n + suc m) = omega arith in ap (λ k. drop k []) e
drop-drop (suc n) m (c ∷ s) =
    let e : suc n + m ≡ suc (n + m) = omega arith in ap (λ k. drop k (c ∷ s)) e ∙ drop-drop n m s

one_before : (o : Option ℕ) (n : ℕ) → after_one o ≡ some n → (m : ℕ) × (o ≡ some m) × (n ≡ suc m)
one_before none n h = absurd (ground (arith, h))
one_before (some m) n h = (m, refl, ground (arith, h))

-- The text around the first place of a delimiter.
find-parts :
    (p s : Bytes) (n : ℕ)
    → find p s ≡ some n
    → (take n s ++ (p ++ drop (length p) (drop n s)) ≡ s) × (n < length s)
find-parts p [] n h = unfold find in absurd (ground (arith, h))
find-parts p (c ∷ s) n h = elim (Bool-cases (starts_with p (c ∷ s))) [
  | inl e ↦
      let z : n ≡ 0 = unfold find in ground (arith, h, e) in
      rw z (starts_with-drop p (c ∷ s) e, omega arith)
  | inr e ↦
      let later : after_one (find p s) ≡ some n = unfold find in ground (arith, h, e) in
      let (m, f, z) = one_before (find p s) n later in
      let (parts, bound) = find-parts p s m f in rw z (ap (λ t. c ∷ t) parts, omega (arith, bound))
]

-- A delimiter that is found stands there first: it is nowhere in the text before.
starts_with-take : (p s : Bytes) (n : ℕ) → starts_with p (take n s) ≡ true → starts_with p s ≡ true
starts_with-take [] s n h = refl
starts_with-take (c ∷ p) s zero h = absurd (ground (arith, h))
starts_with-take (c ∷ p) [] (suc n) h = h
starts_with-take (c ∷ p) (d ∷ s) (suc n) h =
    let e : (c == d) ≡ true = ground (arith, h) in
    let g : starts_with p (take n s) ≡ true = ground (arith, h) in rw e (starts_with-take p s n g)

not_started : (p s : Bytes) (n : ℕ) → starts_with p s ≡ false → starts_with p (take n s) ≡ false
not_started p s n h = elim (Bool-cases (starts_with p (take n s))) [
  | inl e ↦ let g = starts_with-take p s n e in absurd (ground (arith, g, h))
  | inr e ↦ e
]

find-none :
    (p : Bytes) (c : ℕ) (s : Bytes)
    → starts_with p (c ∷ s) ≡ false
    → find p s ≡ none
    → find p (c ∷ s) ≡ none
unfolding find
find-none p c s e h = rw (e, h) refl

find-take : (p s : Bytes) (n : ℕ) → find p s ≡ some n → find p (take n s) ≡ none
find-take p [] n h = unfold find in absurd (ground (arith, h))
find-take p (c ∷ s) n h = elim (Bool-cases (starts_with p (c ∷ s))) [
  | inl e ↦ let z : n ≡ 0 = unfold find in ground (arith, h, e) in rw z (unfold find in refl)
  | inr e ↦
      let later : after_one (find p s) ≡ some n = unfold find in ground (arith, h, e) in
      let (m, f, z) = one_before (find p s) n later in
      let rest = find-take p s m f in
      let front : starts_with p (c ∷ take m s) ≡ false = not_started p (c ∷ s) (suc m) e in
      rw z (find-none p c (take m s) front rest)
]

abbrev pub Whole : Bytes → Bytes → Type 0
Whole delim p = find delim p ≡ none

All-last :
    (delim : Bytes) (ps : List Bytes) (p : Bytes)
    → All (Whole delim) ps
    → Whole delim p
    → All (Whole delim) (ps ++ (p ∷ []))
All-last delim [] p h w = (w, tt)
All-last delim (q ∷ ps) p h w = (h.0, All-last delim ps p h.1 w)

-- What the loop does to the pieces so far and what is left of the text.
abbrev Splits : Bytes → Bytes → List Bytes → List Bytes → Type 0
Splits delim str rs result = (join delim result ≡ glue delim rs ++ str) × All (Whole delim) result

last_piece :
    (delim str : Bytes) (rs : List Bytes)
    → All (Whole delim) rs
    → find delim str ≡ none
    → Splits delim str rs (rs ++ (str ∷ []))
last_piece delim str rs h e = (join-last delim rs str, All-last delim rs str h e)

shorter :
    (d : ℕ) (delim front rest str : Bytes)
    → front ++ (d ∷ delim ++ rest) ≡ str
    → length rest < length str
shorter d delim front rest str e =
    let a = length-append front (d ∷ delim ++ rest) in
    let b = length-append delim rest in
    let c : length (front ++ (d ∷ delim ++ rest)) ≡ length str = ap length e in
    omega (arith, a, b, c)

split_from-Splits :
    (fuel d : ℕ) (delim str : Bytes) (rs : List Bytes)
    → length str ≤ fuel
    → All (Whole (d ∷ delim)) rs
    → Splits (d ∷ delim) str rs (split_from fuel (d ∷ delim) false str rs)
unfolding split_from
split_from-Splits zero d delim [] rs l h = last_piece (d ∷ delim) [] rs h (unfold find in refl)
split_from-Splits zero d delim (c ∷ s) rs l h = absurd (omega (arith, l))
split_from-Splits (suc fuel) d delim str rs l h = elim (Option-cases (find (d ∷ delim) str)) [
  | inl e ↦ rw (e, split_from) (last_piece (d ∷ delim) str rs h e)
  | inr (n, e) ↦
      let (parts, bound) = find-parts (d ∷ delim) str n e in
      let rest = drop (n + length (d ∷ delim)) str in
      let same_rest : rest ≡ drop (length (d ∷ delim)) (drop n str) =
        drop-drop n (length (d ∷ delim)) str in
      let whole : take n str ++ (d ∷ delim ++ rest) ≡ str =
        ap (λ t. take n str ++ (d ∷ delim ++ t)) same_rest ∙ parts in
      let less_left : length rest < length str = shorter d delim (take n str) rest str whole in
      let more = All-last (d ∷ delim) rs (take n str) h (find-take (d ∷ delim) str n e) in
      let ih =
        split_from-Splits fuel d delim rest (rs ++ (take n str ∷ [])) (omega (arith, l, less_left))
          more in
      rw (e, split_from)
        (
          ih.0
              ∙ glue-last (d ∷ delim) rs (take n str) rest
              ∙ ap (λ t. glue (d ∷ delim) rs ++ t) whole,
          ih.1,
        )
]

-- For a delimiter that is not empty, and without trimming, the pieces that `split` gives are the
-- text when they are joined by the delimiter, and none of them holds the delimiter.
pub join-split :
    (str : Bytes) (d : ℕ) (delim : Bytes)
    → (join (d ∷ delim) (split str (d ∷ delim) false) ≡ str)
      × All (λ p. find (d ∷ delim) p ≡ none) (split str (d ∷ delim) false)
unfolding split
join-split str d delim = split_from-Splits (length str) d delim str [] (omega arith) tt
