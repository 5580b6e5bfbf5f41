-- ===== src/Storage/StripedIo/Appending.antt =====
-- A scatter at the end of what a tier holds (striped_io.cpp): the gather of all of it.
use goblin_store.Prelude.{
  ℕ, zero, suc, ◌+◌, ◌≤◌, ◌<◌, List, ◌∷◌, ◌++◌, length, get_or, ◌≡◌, refl, sym, ap, ap₂, ◌∙◌, arith,
}
use goblin_store.Common.Types.{u64}
use goblin_store.Common.Errors.{done}
use goblin_store.Storage.DrivePool.{DrivePool, drive_of, file_offset_of, plan_reads}
use goblin_store.Storage.DrivePool.Placement.{IsPool, Fits}
use goblin_store.Storage.DrivePool.Plan.{byte_places, byte_places-append, plan_reads-places}
use goblin_store.Storage.StripedIo.{Disk, striped_pwrite, striped_read}
use goblin_store.Storage.StripedIo.Places.{
  store_at, read_at, read_at-append, file_places, file_places-append, write_segments-store_at,
  read_segments-read_at,
}
use goblin_store.Storage.StripedIo.RoundTrip.{
  OwnFiles, store_at_outside, read_at-store_at, length-places, places_avoid, places-Apart,
}

striped_read-read_at :
    (p : DrivePool) (k : ℕ) (d : Disk) (fds : List ℕ) (off n : ℕ)
    → IsPool p
    → off + n < u64
    → striped_read p k d fds off n ≡ read_at d (file_places fds (byte_places p k off n))
unfolding striped_read
striped_read-read_at p k d fds off n v range =
    read_segments-read_at d fds (plan_reads p k off n)
    ∙ ap (λ ps. read_at d (file_places fds ps)) (plan_reads-places p k off n v range)

module _ (p : DrivePool) (k : ℕ) (fds : List ℕ) (v : IsPool p) (own : OwnFiles p fds) where
  read_before :
      (d : Disk) (bs : List ℕ) (cur n b m : ℕ)
      → cur + n ≤ b
      → Fits p k (b + m)
      → read_at
          (store_at d (file_places fds (byte_places p k b m)) bs)
          (file_places fds (byte_places p k cur n))
        ≡ read_at d (file_places fds (byte_places p k cur n))
  unfolding byte_places read_at
  read_before d bs cur zero b m le fits = refl
  read_before d bs cur (suc n) b m le fits =
      ap₂ (λ x xs. x ∷ xs)
        (store_at_outside d (get_or fds (drive_of p k cur) 0) (file_offset_of p cur)
          (file_places fds (byte_places p k b m)) bs
          (places_avoid p k fds v own cur b m (omega arith) fits))
        (read_before d bs (cur + 1) n b m (omega arith) fits)

  -- What a tier holds, and the bytes that a scatter at its end wrote.
  pub striped_read-appended :
      (answers : List ℕ) (d : Disk) (a : ℕ) (bs : List ℕ)
      → a + length bs < u64
      → Fits p k (a + length bs)
      → (striped_pwrite answers p k d fds a bs).status ≡ done
      → striped_read p k (striped_pwrite answers p k d fds a bs).disk fds 0 (a + length bs)
        ≡ striped_read p k d fds 0 a ++ bs
  unfolding striped_pwrite
  striped_read-appended answers d a bs range fits ok =
      let n = length bs in
      let ps = file_places fds (byte_places p k 0 a) in
      let qs = file_places fds (byte_places p k a n) in
      let d' = store_at d qs bs in
      let wrote : (striped_pwrite answers p k d fds a bs).disk ≡ d' =
        write_segments-store_at answers d fds (plan_reads p k a n) bs ok
        ∙ ap (λ ss. store_at d (file_places fds ss) bs) (plan_reads-places p k a n v range) in
      let start : 0 + a ≡ a = omega arith in
      let all : file_places fds (byte_places p k 0 (a + n)) ≡ ps ++ qs =
        ap (file_places fds) (byte_places-append p k a n 0)
        ∙ ap (λ z. file_places fds (byte_places p k 0 a ++ byte_places p k z n)) start
        ∙ file_places-append fds (byte_places p k 0 a) (byte_places p k a n) in
      ap (λ e. striped_read p k e fds 0 (a + n)) wrote
      ∙ striped_read-read_at p k d' fds 0 (a + n) v (omega arith)
      ∙ ap (read_at d') all
      ∙ read_at-append d' ps qs
      ∙ ap₂ (λ xs ys. xs ++ ys)
          (read_before d bs 0 a a n (omega arith) fits
            ∙ sym (striped_read-read_at p k d fds 0 a v (omega arith)))
          (read_at-store_at d qs bs (places-Apart p k fds v own a n fits)
            (sym (length-places fds p k a n)))
