-- ===== src/Storage/StripedIo/Places.antt =====
-- Reads and writes at a list of places, a pair of an open file and an offset each: the plain meaning
-- of the scatter and the gather of striped_io.cpp.
use goblin_store.Prelude.{
  ℕ, zero, suc, ◌+◌, min, List, [], ◌∷◌, ◌++◌, length, get_or, take, drop, ◌≡◌, refl, sym, ap, ◌∙◌,
  arith, take-append-drop, length-take, Bool-cases, ◌==◌, inl, inr, ◌⊎◌,
}
use goblin_store.Common.Errors.{Status, Error, value, error, done}
use goblin_store.Storage.DrivePool.{ReadSegment}
use goblin_store.Storage.DrivePool.Plan.{run_places, segment_places}
use goblin_store.Storage.StripedIo.{
  Disk, poke, store_bytes, pwrite_loop, write_segments, read_bytes, read_segments,
}

unfoldable pub store_at : Disk → List (ℕ × ℕ) → List ℕ → Disk
store_at d [] bs = d
store_at d (p ∷ ps) [] = d
store_at d ((f, o) ∷ ps) (b ∷ bs) = store_at (poke d f o b) ps bs

unfoldable pub read_at : Disk → List (ℕ × ℕ) → List ℕ
read_at d [] = []
read_at d ((f, o) ∷ ps) = d f o ∷ read_at d ps

-- The open file of each place's drive.
abbrev pub file_places : List ℕ → List (ℕ × ℕ) → List (ℕ × ℕ)
file_places fds [] = []
file_places fds ((d, o) ∷ ps) = (get_or fds d 0, o) ∷ file_places fds ps

pub file_places-append :
    (fds : List ℕ) (ps qs : List (ℕ × ℕ))
    → file_places fds (ps ++ qs) ≡ file_places fds ps ++ file_places fds qs
file_places-append fds [] qs = refl
file_places-append fds ((d, o) ∷ ps) qs =
    ap (◌∷◌ (get_or fds d 0, o)) (file_places-append fds ps qs)

pub file_places-run :
    (fds : List ℕ) (d o n : ℕ)
    → file_places fds (run_places d o n) ≡ run_places (get_or fds d 0) o n
file_places-run fds d o zero = refl
file_places-run fds d o (suc n) = ap (◌∷◌ (get_or fds d 0, o)) (file_places-run fds d (o + 1) n)

store_bytes-append :
    (d : Disk) (fd off : ℕ) (xs ys : List ℕ)
    → store_bytes d fd off (xs ++ ys)
      ≡ store_bytes (store_bytes d fd off xs) fd (off + length xs) ys
unfolding store_bytes
store_bytes-append d fd off [] ys = let e : off + 0 ≡ off = omega arith in rw e
store_bytes-append d fd off (x ∷ xs) ys =
    let e : off + suc (length xs) ≡ off + 1 + length xs = omega arith in
    rw e (store_bytes-append (poke d fd off x) fd (off + 1) xs ys)

store_bytes-store_at :
    (d : Disk) (fd off n : ℕ) (bs : List ℕ)
    → store_bytes d fd off (take n bs) ≡ store_at d (run_places fd off n) (take n bs)
unfolding store_bytes store_at
store_bytes-store_at d fd off zero bs = refl
store_bytes-store_at d fd off (suc n) [] = refl
store_bytes-store_at d fd off (suc n) (b ∷ bs) =
    store_bytes-store_at (poke d fd off b) fd (off + 1) n bs

length-run_places : (d o n : ℕ) → length (run_places d o n) ≡ n
length-run_places d o zero = refl
length-run_places d o (suc n) = ap suc (length-run_places d (o + 1) n)

store_at-append :
    (d : Disk) (ps qs : List (ℕ × ℕ)) (bs : List ℕ)
    → store_at d (ps ++ qs) bs
      ≡ store_at (store_at d ps (take (length ps) bs)) qs (drop (length ps) bs)
unfolding store_at
store_at-append d [] qs bs = refl
store_at-append d (p ∷ ps) [] [] = refl
store_at-append d (p ∷ ps) (q ∷ qs) [] = refl
store_at-append d ((f, o) ∷ ps) qs (b ∷ bs) = store_at-append (poke d f o b) ps qs bs

read_at-nil : (d : Disk) → read_at d [] ≡ []
unfolding read_at
read_at-nil d = refl

pub read_at-append :
    (d : Disk) (ps qs : List (ℕ × ℕ)) → read_at d (ps ++ qs) ≡ read_at d ps ++ read_at d qs
unfolding read_at
read_at-append d [] qs = refl
read_at-append d ((f, o) ∷ ps) qs = ap (◌∷◌ (d f o)) (read_at-append d ps qs)

read_bytes-read_at : (d : Disk) (fd o n : ℕ) → read_bytes d fd o n ≡ read_at d (run_places fd o n)
unfolding read_bytes read_at
read_bytes-read_at d fd o zero = refl
read_bytes-read_at d fd o (suc n) = ap (◌∷◌ (d fd o)) (read_bytes-read_at d fd (o + 1) n)

store_bytes-nil : (d : Disk) (fd off : ℕ) → store_bytes d fd off [] ≡ d
unfolding store_bytes
store_bytes-nil d fd off = refl

-- What one call writes, and what the later calls write, are the whole.
store_bytes-take-drop :
    (d : Disk) (fd off w : ℕ) (bs : List ℕ)
    → store_bytes (store_bytes d fd off (take w bs)) fd (off + min w (length bs)) (drop w bs)
      ≡ store_bytes d fd off bs
store_bytes-take-drop d fd off w bs =
    ap (λ n. store_bytes (store_bytes d fd off (take w bs)) fd (off + n) (drop w bs))
      (sym (length-take w bs))
    ∙ sym (store_bytes-append d fd off (take w bs) (drop w bs))
    ∙ ap (store_bytes d fd off) (take-append-drop w bs)

-- A write that succeeds has stored every byte, however the calls cut it.
pwrite_loop-disk :
    (ws : List ℕ) (d : Disk) (fd : ℕ) (bs : List ℕ) (fo : ℕ)
    → (pwrite_loop ws d fd bs fo).status ≡ done
    → (pwrite_loop ws d fd bs fo).disk ≡ store_bytes d fd fo bs
unfolding pwrite_loop
pwrite_loop-disk [] d fd [] fo h = sym (store_bytes-nil d fd fo)
pwrite_loop-disk [] d fd (b ∷ bs) fo h = cc
pwrite_loop-disk (w ∷ ws) d fd [] fo h = sym (store_bytes-nil d fd fo)
pwrite_loop-disk (w ∷ ws) d fd (b ∷ bs) fo h = elim (Bool-cases (w == 0)) [
  | inl failed ↦ absurd (ground arith)
  | inr wrote ↦ rw wrote (
      pwrite_loop-disk ws (store_bytes d fd fo (take w (b ∷ bs))) fd (drop w (b ∷ bs))
        (fo + min w (length (b ∷ bs))) (rw wrote at h)
      ∙ store_bytes-take-drop d fd fo w (b ∷ bs))
]

store_at-nil : (d : Disk) (bs : List ℕ) → store_at d [] bs ≡ d
unfolding store_at
store_at-nil d bs = refl

Status-cases : (s : Status) → (s ≡ done) ⊎ ((e : Error) × (s ≡ error e))
Status-cases (value tt) = inl refl
Status-cases (error e) = inr (e, refl)

-- The bytes of the first segment, and those of the rest.
store_at-first :
    (d : Disk) (fds : List ℕ) (s : ReadSegment) (ss : List ReadSegment) (bs : List ℕ)
    → store_at d (file_places fds (segment_places (s ∷ ss))) bs
      ≡ store_at
          (store_at d (run_places (get_or fds s.drive 0) s.file_offset s.length) (take s.length bs))
          (file_places fds (segment_places ss))
          (drop s.length bs)
store_at-first d fds s ss bs =
    let run = run_places (get_or fds s.drive 0) s.file_offset s.length in
    rw (
      file_places-append fds (run_places s.drive s.file_offset s.length) (segment_places ss),
      file_places-run fds s.drive s.file_offset s.length,
      store_at-append d run (file_places fds (segment_places ss)) bs,
      length-run_places (get_or fds s.drive 0) s.file_offset s.length,
    )

-- A scatter that succeeds has stored its bytes at the places of its segments.
pub write_segments-store_at :
    (ws : List ℕ) (d : Disk) (fds : List ℕ) (ss : List ReadSegment) (bs : List ℕ)
    → (write_segments ws d fds ss bs).status ≡ done
    → (write_segments ws d fds ss bs).disk ≡ store_at d (file_places fds (segment_places ss)) bs
unfolding write_segments
write_segments-store_at ws d fds [] bs h = sym (store_at-nil d bs)
write_segments-store_at ws d fds (s ∷ ss) bs h =
    let n = s.length in
    let fd = get_or fds s.drive 0 in
    let r = pwrite_loop ws d fd (take n bs) s.file_offset in
    elim (Status-cases r.status) [
      | inl good ↦
          rw (good, write_segments)
            (write_segments-store_at r.answers r.disk fds ss (drop n bs)
                (rw (good, write_segments) at h)
              ∙ ap (λ t. store_at t (file_places fds (segment_places ss)) (drop n bs))
                  (pwrite_loop-disk ws d fd (take n bs) s.file_offset good
                    ∙ store_bytes-store_at d fd s.file_offset n bs)
              ∙ sym (store_at-first d fds s ss bs))
      | inr (e, bad) ↦ absurd (ground arith)
    ]

-- A gather reads the places of its segments.
pub read_segments-read_at :
    (d : Disk) (fds : List ℕ) (ss : List ReadSegment)
    → read_segments d fds ss ≡ read_at d (file_places fds (segment_places ss))
unfolding read_segments
read_segments-read_at d fds [] = sym (read_at-nil d)
read_segments-read_at d fds (s ∷ ss) =
    let fd = get_or fds s.drive 0 in
    rw
      (
        read_segments-read_at d fds ss,
        read_bytes-read_at d fd s.file_offset s.length,
        file_places-append fds (run_places s.drive s.file_offset s.length) (segment_places ss),
        file_places-run fds s.drive s.file_offset s.length,
      )
      (sym (
        read_at-append d (run_places fd s.file_offset s.length)
          (file_places fds (segment_places ss))))
