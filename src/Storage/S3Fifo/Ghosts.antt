-- ===== src/Storage/S3Fifo/Ghosts.antt =====
-- The ghost queue of s3fifo.cpp stays bounded, and its set inside it.
use goblin_store.Prelude.{
  ℕ, ◌≤◌, true, List, [], ◌∷◌, length, ◌≡◌, arith, ltb, inl, inr, Bool-cases,
}
use goblin_store.Prelude.Assoc.{
  member, drop_member, IsDistinct, member-drop_member, drop_member-IsDistinct,
}
use goblin_store.Crypto.Digest.{Digest}
use goblin_store.Storage.S3Fifo.{ghost_trim}
use goblin_store.Storage.S3Fifo.View.{dec}

abbrev pub Inside : List Digest → List Digest → Type 0
Inside set ghost = (j : Digest) → member dec j set ≡ true → member dec j ghost ≡ true

pub record Trimmed (limit : ℕ) (set : List Digest) (r : List Digest × List Digest) : Type 0 where
  pub short : length r.0 ≤ limit
  pub distinct : IsDistinct dec r.1
  pub inside : Inside r.1 r.0
  pub fewer : Inside r.1 set

pub ghost_trim-Trimmed :
    (limit : ℕ) (ghost set : List Digest)
    → IsDistinct dec set
    → Inside set ghost
    → Trimmed limit set (ghost_trim limit ghost set)
unfolding ghost_trim member
ghost_trim-Trimmed limit [] set v inside = record {
  short = omega arith;
  distinct = v;
  inside = inside;
  fewer = λ j h. h;
}
ghost_trim-Trimmed limit (d ∷ ghost) set v inside =
    elim (Bool-cases (ltb limit (length (d ∷ ghost)))) [
      | inl over ↦
          let set' = drop_member dec d set in
          let ih =
            ghost_trim-Trimmed limit ghost set' (drop_member-IsDistinct dec d set v)
              (λ j h. ground (arith, member-drop_member dec j d set v, inside j)) in
          rw over (record {
            short = ih.short;
            distinct = ih.distinct;
            inside = ih.inside;
            fewer = λ j h. ground (arith, ih.fewer j, member-drop_member dec j d set v);
          })
      | inr fits ↦
          rw fits (record { short = ground arith; distinct = v; inside = inside; fewer = λ j h. h })
    ]
