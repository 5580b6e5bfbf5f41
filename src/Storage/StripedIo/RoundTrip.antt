-- ===== src/Storage/StripedIo/RoundTrip.antt =====
-- What striped_io.cpp scatters is what it gathers.
use goblin_store.Prelude.{
  ℕ, zero, suc, ◌+◌, ◌≤◌, ◌<◌, List, [], ◌∷◌, length, get_or, ◌≡◌, refl, sym, ap, ◌∙◌, arith,
}
use goblin_store.Prelude.Division.{div_mono}
use goblin_store.Common.Types.{u64}
use goblin_store.Common.Errors.{done}
use goblin_store.Storage.DrivePool.{DrivePool, drive_of, file_offset_of, plan_reads}
use goblin_store.Storage.DrivePool.Placement.{
  IsPool, Fits, drive_of-lt, drive_of-file_offset_of-injective,
}
use goblin_store.Storage.DrivePool.Plan.{byte_places, segment_places, plan_reads-places}
use goblin_store.Storage.StripedIo.{Disk, poke, striped_pwrite, striped_read}
use goblin_store.Storage.StripedIo.Places.{
  store_at, read_at, file_places, write_segments-store_at, read_segments-read_at,
}

-- The place is none of the listed ones; no two listed places are one.
abbrev Avoids : ℕ → ℕ → List (ℕ × ℕ) → Type 0
Avoids f o [] = Unit
Avoids f o ((g, i) ∷ ps) = (f ≡ g → o ≡ i → ⊥) × Avoids f o ps

abbrev Apart : List (ℕ × ℕ) → Type 0
Apart [] = Unit
Apart ((f, o) ∷ ps) = Avoids f o ps × Apart ps

poke_ne : (d : Disk) (g i b f o : ℕ) → (f ≡ g → o ≡ i → ⊥) → poke d g i b f o ≡ d f o
unfolding poke
poke_ne d g i b f o h = ground arith

poke_self : (d : Disk) (f o b : ℕ) → poke d f o b f o ≡ b
unfolding poke
poke_self d f o b = ground arith

pub store_at_outside :
    (d : Disk) (f o : ℕ) (ps : List (ℕ × ℕ)) (bs : List ℕ)
    → Avoids f o ps
    → store_at d ps bs f o ≡ d f o
unfolding store_at
store_at_outside d f o [] bs h = refl
store_at_outside d f o ((g, i) ∷ ps) [] h = refl
store_at_outside d f o ((g, i) ∷ ps) (b ∷ bs) h =
    store_at_outside (poke d g i b) f o ps bs h.1 ∙ poke_ne d g i b f o h.0

pub read_at-store_at :
    (d : Disk) (ps : List (ℕ × ℕ)) (bs : List ℕ)
    → Apart ps
    → length bs ≡ length ps
    → read_at (store_at d ps bs) ps ≡ bs
unfolding store_at read_at
read_at-store_at d [] [] h e = refl
read_at-store_at d [] (b ∷ bs) h e = absurd (omega arith)
read_at-store_at d ((f, o) ∷ ps) [] h e = absurd (omega arith)
read_at-store_at d ((f, o) ∷ ps) (b ∷ bs) h e =
    rw (store_at_outside (poke d f o b) f o ps bs h.0, poke_self d f o b)
      (ap (◌∷◌ b) (read_at-store_at (poke d f o b) ps bs h.1 (omega arith)))

pub length-places :
    (fds : List ℕ) (p : DrivePool) (k cur n : ℕ)
    → length (file_places fds (byte_places p k cur n)) ≡ n
unfolding byte_places
length-places fds p k cur zero = refl
length-places fds p k cur (suc n) = ap suc (length-places fds p k (cur + 1) n)

-- Every drive of the pool has an open file of its own.
unfoldable pub OwnFiles : DrivePool → List ℕ → Type 0
OwnFiles p fds =
    (i j : ℕ) → i < p.num_drives → j < p.num_drives → get_or fds i 0 ≡ get_or fds j 0 → i ≡ j

module _ (p : DrivePool) (k : ℕ) (fds : List ℕ) (v : IsPool p) (own : OwnFiles p fds) where
  -- The sum of the key hash and a chunk index is largest at the end.
  pub Fits-below : (a b : ℕ) → a ≤ b → Fits p k b → Fits p k a
  Fits-below a b le fits = omega (arith, div_mono a b p.stripe_unit v.stripe le)

  pub places_avoid :
      (a b n : ℕ)
      → a < b
      → Fits p k (b + n)
      → Avoids
          (get_or fds (drive_of p k a) 0)
          (file_offset_of p a)
          (file_places fds (byte_places p k b n))
  unfolding byte_places OwnFiles
  places_avoid a b zero lt fits = tt
  places_avoid a b (suc n) lt fits = (
    λ fd fo.
        let same : a ≡ b =
          drive_of-file_offset_of-injective p k a b v (Fits-below a (b + suc n) (omega arith) fits)
            (Fits-below b (b + suc n) (omega arith) fits)
            (own (drive_of p k a) (drive_of p k b) (drive_of-lt p k a v) (drive_of-lt p k b v) fd)
            fo in
        absurd (omega arith),
    places_avoid a (b + 1) n (omega arith) (Fits-below (b + 1 + n) (b + suc n) (omega arith) fits),
  )

  pub places-Apart :
      (cur n : ℕ) → Fits p k (cur + n) → Apart (file_places fds (byte_places p k cur n))
  unfolding byte_places
  places-Apart cur zero fits = tt
  places-Apart cur (suc n) fits =
      let fits' = Fits-below (cur + 1 + n) (cur + suc n) (omega arith) fits in
      (places_avoid cur (cur + 1) n (omega arith) fits', places-Apart (cur + 1) n fits')

-- After a scatter that succeeds, whatever the lengths of the single writes, a gather of the same
-- range brings the same bytes: on a pool with a file of its own for every drive, where neither the
-- offsets nor the sums of key hash and chunk index wrap.
pub striped_read-striped_pwrite :
    (answers : List ℕ) (p : DrivePool) (key_hash : ℕ) (disk : Disk) (fds : List ℕ) (off : ℕ)
    (bytes : List ℕ)
    → IsPool p
    → OwnFiles p fds
    → off + length bytes < u64
    → Fits p key_hash (off + length bytes)
    → (striped_pwrite answers p key_hash disk fds off bytes).status ≡ done
    → striped_read p key_hash
        (striped_pwrite answers p key_hash disk fds off bytes).disk
        fds
        off
        (length bytes)
      ≡ bytes
unfolding striped_read striped_pwrite
striped_read-striped_pwrite answers p k disk fds off bytes v own range fits ok =
    let n = length bytes in
    let ss = plan_reads p k off n in
    let places = ap (file_places fds) (plan_reads-places p k off n v range) in
    rw
      (
        write_segments-store_at answers disk fds ss bytes ok,
        read_segments-read_at (store_at disk (file_places fds (segment_places ss)) bytes) fds ss,
        places,
      )
      (read_at-store_at disk (file_places fds (byte_places p k off n)) bytes
        (places-Apart p k fds v own off n fits) (sym (length-places fds p k off n)))
