-- ===== src/Http/Keys/Paths.antt =====
-- Canonical paths (http/key_derivation.cpp): what they consist of, and that they are fixed.
use goblin_store.Prelude.{
  ℕ, Bool, false, not, ◌&&◌, ◌==◌, if◌then◌else◌, List, [], ◌∷◌, ◌++◌, append_assoc, append-nil,
  ◌≡◌, refl, sym, ap, ◌∙◌, arith, Bool-cases, inl, inr,
}
use goblin_store.Prelude.Bytes.{Bytes, same, has_byte}
use goblin_store.Common.Config.{is_empty}
use goblin_store.Http.Keys.{
  slash, dot, add_to_first, segments, pop_segment, push_segment, resolve, join_rest, join,
  canonical_path, percent_decode,
}

-- A segment of a canonical path is not empty, not ".", not "..", and holds no slash.
pub record IsName (seg : Bytes) : Type 0 where
  pub filled : is_empty seg ≡ false
  pub not_dot : same seg (dot ∷ []) ≡ false
  pub not_dots : same seg (dot ∷ dot ∷ []) ≡ false
  pub no_slash : has_byte slash seg ≡ false

abbrev pub Names : List Bytes → Type 0
Names [] = Unit
Names (seg ∷ segs) = IsName seg × Names segs

abbrev NoSlashes : List Bytes → Type 0
NoSlashes [] = Unit
NoSlashes (seg ∷ segs) = (has_byte slash seg ≡ false) × NoSlashes segs

add_to_first-NoSlashes :
    (c : ℕ) (segs : List Bytes)
    → (c == slash) ≡ false
    → NoSlashes segs
    → NoSlashes (add_to_first c segs)
unfolding add_to_first has_byte
add_to_first-NoSlashes c [] h v = (ground arith, tt)
add_to_first-NoSlashes c (seg ∷ segs) h v = (ground (arith, v.0), v.1)

segments-NoSlashes : (s : Bytes) → NoSlashes (segments s)
unfolding segments has_byte
segments-NoSlashes [] = (refl, tt)
segments-NoSlashes (c ∷ s) = elim (Bool-cases (c == slash)) [
  | inl e ↦ rw e (refl, segments-NoSlashes s)
  | inr e ↦ rw e (add_to_first-NoSlashes c (segments s) e (segments-NoSlashes s))
]

Names-append : (xs : List Bytes) (seg : Bytes) → Names xs → IsName seg → Names (xs ++ seg ∷ [])
Names-append [] seg v h = (h, tt)
Names-append (x ∷ xs) seg v h = (v.0, Names-append xs seg v.1 h)

pop_segment-Names : (xs : List Bytes) → Names xs → Names (pop_segment xs)
unfolding pop_segment
pop_segment-Names [] v = tt
pop_segment-Names (x ∷ []) v = tt
pop_segment-Names (x ∷ y ∷ xs) v = (v.0, pop_segment-Names (y ∷ xs) v.1)

push_segment-Names :
    (stack : List Bytes) (seg : Bytes)
    → Names stack
    → has_byte slash seg ≡ false
    → Names (push_segment stack seg)
unfolding push_segment
push_segment-Names stack seg v h = elim (Bool-cases (same seg (dot ∷ dot ∷ []))) [
  | inl up ↦ rw up (pop_segment-Names stack v)
  | inr down ↦ elim (Bool-cases (not (is_empty seg) && not (same seg (dot ∷ [])))) [
    | inl kept ↦
        rw (down, kept)
          (Names-append stack seg v (record {
            filled = ground arith;
            not_dot = ground arith;
            not_dots = down;
            no_slash = h;
          }))
    | inr dropped ↦ rw (down, dropped) v
  ]
]

resolve-Names :
    (stack segs : List Bytes) → Names stack → NoSlashes segs → Names (resolve stack segs)
unfolding resolve
resolve-Names stack [] v h = v
resolve-Names stack (seg ∷ segs) v h =
    resolve-Names (push_segment stack seg) segs (push_segment-Names stack seg v h.0) h.1

-- The segments of what is joined.
segments_word :
    (seg rest : Bytes)
    → has_byte slash seg ≡ false
    → segments (seg ++ slash ∷ rest) ≡ seg ∷ segments rest
unfolding segments has_byte add_to_first
segments_word [] rest h = refl
segments_word (c ∷ seg) rest h =
    let e : (c == slash) ≡ false = ground arith in
    let ih = segments_word seg rest (ground arith) in rw (e, ih) refl

segments_last : (seg : Bytes) → has_byte slash seg ≡ false → segments seg ≡ seg ∷ []
unfolding segments has_byte add_to_first
segments_last [] h = refl
segments_last (c ∷ seg) h =
    let e : (c == slash) ≡ false = ground arith in
    let ih = segments_last seg (ground arith) in rw (e, ih) refl

segments-join_rest :
    (seg : Bytes) (segs : List Bytes)
    → Names (seg ∷ segs)
    → segments (seg ++ join_rest segs) ≡ seg ∷ segs
unfolding join_rest
segments-join_rest seg [] v = ap segments (append-nil seg) ∙ segments_last seg v.0.no_slash
segments-join_rest seg (next ∷ segs) v =
    segments_word seg (next ++ join_rest segs) v.0.no_slash
    ∙ ap (◌∷◌ seg) (segments-join_rest next segs v.1)

push_segment_name :
    (stack : List Bytes) (seg : Bytes) → IsName seg → push_segment stack seg ≡ stack ++ seg ∷ []
unfolding push_segment
push_segment_name stack seg v = rw (v.not_dots, v.not_dot, v.filled) refl

resolve_kept : (stack segs : List Bytes) → Names segs → resolve stack segs ≡ stack ++ segs
unfolding resolve
resolve_kept stack [] v = sym (append-nil stack)
resolve_kept stack (seg ∷ segs) v =
    rw (push_segment_name stack seg v.0)
      (resolve_kept (stack ++ seg ∷ []) segs v.1 ∙ append_assoc stack (seg ∷ []) segs)

-- The first segment of a path that begins with a slash is empty, and is dropped.
segments-join : (segs : List Bytes) → Names segs → resolve [] (segments (join segs)) ≡ segs
unfolding join segments resolve push_segment same join_rest
segments-join [] v = refl
segments-join (seg ∷ segs) v = rw (segments-join_rest seg segs v) (resolve_kept [] (seg ∷ segs) v)

-- A canonical path is a slash, then names with a slash between them, none of which is empty, "." or
-- ".." or holds a slash; and it is its own canonical path, undecoded.
pub canonical_path-Names :
    (path : Bytes) (decode : Bool)
    → ((names : List Bytes) × Names names × (canonical_path path decode ≡ join names))
      × (canonical_path (canonical_path path decode) false ≡ canonical_path path decode)
unfolding canonical_path
canonical_path-Names path decode =
    let decoded = if decode then percent_decode path else path in
    let names = resolve [] (segments decoded) in
    let v = resolve-Names [] (segments decoded) tt (segments-NoSlashes decoded) in
    ((names, v, refl), ap join (segments-join names v))
