-- ===== src/Storage/TierManager/Handles/Rounds.antt =====
-- The rounds of the loop of a write (tier_manager.cpp, StoreHandle::write).
use goblin_store.Prelude.{
  ℕ, zero, suc, ◌+◌, ◌-◌, ◌≤◌, ◌<◌, min, false, ◌==◌, [], ◌∷◌, ◌++◌, length, take, drop,
  append_assoc, append-nil, take-append-drop, length-append, length-take, length-drop, ◌≡◌, refl,
  arith, sym, ap, subst, ◌∙◌, inl, inr, Bool-cases,
}
use goblin_store.Prelude.Bytes.{Bytes}
use goblin_store.Common.Errors.{Status, value, error, done}
use goblin_store.Storage.Pool.{Volume}
use goblin_store.Storage.TierManager.{TierManager}
use goblin_store.Storage.TierManager.Handles.{
  Outcome, stage_size, flush_ssd, flush_hdd, flush_end, flush_block, stage_bytes, write_loop,
}
use goblin_store.Storage.TierManager.Handles.Contents.{
  IsOpen, stored, at_volumes, at_offset, flush_hdd-stored,
}
use goblin_store.Storage.TierManager.Writes.{StoreHandle}

-- The disks and the buffer hold what was given.
pub record Keeps (tm : TierManager) (h : StoreHandle) (given : Bytes) (v hv : Volume) (fl : ℕ)
    (st : Bytes) : Type 0 where
  pub kept : stored (at_volumes tm v hv) h fl ++ st ≡ given
  pub count : fl + length st ≡ length given

-- What a round or a loop of a store of `h` leaves: the volumes, the offset and the buffer may have
-- changed, and where it succeeds, the disks and a buffer with room hold what was given.
unfoldable pub Stages : TierManager → StoreHandle → Bytes → Outcome → Type 0
Stages tm h given (tm', h', error e) = h'.off ≡ h.off
Stages tm h given (tm', h', value _) =
    (v hv : Volume) × (fl : ℕ) × (st : Bytes) × (tm' ≡ at_volumes tm v hv)
    × (h' ≡ at_offset h fl st)
    × Keeps tm h given v hv fl st
    × (length st < stage_size h.stage)

module _ (tm : TierManager) (h : StoreHandle) (open_files : IsOpen tm h)
    (room : 0 < stage_size h.stage) where
  flush_end-Stages :
      (given : Bytes) (h1 : StoreHandle) (n : ℕ) (r q : TierManager × Status)
      → h1.off ≡ h.off
      → (r.1 ≡ done
          → q.1 ≡ done
          → Stages tm h given (q.0, record h1 { flushed = h1.flushed + n; staged = [] }, done))
      → Stages tm h given (flush_end h1 n r q)
  unfolding flush_end Stages
  flush_end-Stages given h1 n (tm1, error e) q same k = same
  flush_end-Stages given h1 n (tm1, value _) (tm2, error e) same k = same
  flush_end-Stages given h1 n (tm1, value _) (tm2, value _) same k = k refl refl

  flush_block-Stages :
      (v hv : Volume) (fl : ℕ) (block given : Bytes)
      → length given ≤ h.layout.size
      → Keeps tm h given v hv fl block
      → Stages tm h given (flush_block (at_volumes tm v hv) (at_offset h fl block) block)
  unfolding flush_block Stages
  flush_block-Stages v hv fl block given le k =
      let h1 = at_offset h fl block in
      let r = flush_ssd (at_volumes tm v hv) h1 block in
      flush_end-Stages given h1 (length block) r (flush_hdd r.0 h1 tm.hdd h.hdd block) refl
        λ ok1 ok2.
          let (v', hv', same, more) =
            flush_hdd-stored tm h open_files v hv fl block block (omega (arith, k.count)) ok1 ok2 in
          (
            v',
            hv',
            fl + length block,
            [],
            same,
            refl,
            record {
              kept =
                  append-nil (stored (at_volumes tm v' hv') h (fl + length block)) ∙ more ∙ k.kept;
              count = omega (arith, k.count);
            },
            room,
          )

  stage_bytes-Stages :
      (v hv : Volume) (fl : ℕ) (st bytes given : Bytes)
      → length (given ++ bytes) ≤ h.layout.size
      → length st + length bytes ≤ stage_size h.stage
      → Keeps tm h given v hv fl st
      → Stages tm h (given ++ bytes) (stage_bytes (at_volumes tm v hv) (at_offset h fl st) bytes)
  unfolding stage_bytes Stages
  stage_bytes-Stages v hv fl st bytes given le fits k =
      let n = length-append st bytes in
      let k' : Keeps tm h (given ++ bytes) v hv fl (st ++ bytes) = record {
        kept =
            sym (append_assoc (stored (at_volumes tm v hv) h fl) st bytes)
            ∙ ap (λ z. z ++ bytes) k.kept;
        count = omega (arith, n, length-append given bytes, k.count);
      } in
      elim (Bool-cases (length (st ++ bytes) == stage_size h.stage)) [
        | inl full ↦ rw full (flush_block-Stages v hv fl (st ++ bytes) (given ++ bytes) le k')
        | inr open_yet ↦
            rw open_yet (v, hv, fl, st ++ bytes, refl, refl, k', ground (arith, open_yet, n, fits))
      ]

  -- A round and the rounds after it.
  write_round-Stages :
      (fuel : ℕ) (given bytes : Bytes) (r : Outcome)
      → ((v hv : Volume) (fl : ℕ) (st : Bytes)
          → Keeps tm h given v hv fl st
          → length st < stage_size h.stage
          → Stages tm h
              (given ++ bytes)
              (write_loop fuel (at_volumes tm v hv) (at_offset h fl st) bytes))
      → Stages tm h given r
      → Stages tm h
          (given ++ bytes)
          (elim (r.2) [ error e ↦ r | value _ ↦ write_loop fuel r.0 r.1 bytes ])
  unfolding Stages
  write_round-Stages fuel given bytes (tm', h', error e) rest s = s
  write_round-Stages fuel given bytes (tm', h', value _) rest (v, hv, fl, st, e, f, k, left) =
      rw (e, f) (rest v hv fl st k left)

  -- The loop, given the rounds after the first.
  pub write_rounds-Stages :
      (fuel : ℕ) (v hv : Volume) (fl : ℕ) (st bytes given : Bytes)
      → ((n : ℕ) (v' hv' : Volume) (fl' : ℕ) (st' : Bytes)
          → n ≡ min (length bytes) (stage_size h.stage - length st)
          → Keeps tm h (given ++ take n bytes) v' hv' fl' st'
          → length st' < stage_size h.stage
          → Stages tm h
              ((given ++ take n bytes) ++ drop n bytes)
              (write_loop fuel (at_volumes tm v' hv') (at_offset h fl' st') (drop n bytes)))
      → length (given ++ bytes) ≤ h.layout.size
      → length st ≤ stage_size h.stage
      → 0 < length bytes
      → Keeps tm h given v hv fl st
      → Stages tm h
          (given ++ bytes)
          (write_loop (suc fuel) (at_volumes tm v hv) (at_offset h fl st) bytes)
  unfolding write_loop
  write_rounds-Stages fuel v hv fl st bytes given rest le fits some_left k =
      let n = min (length bytes) (stage_size h.stage - length st) in
      let m = length-take n bytes in
      let r = stage_bytes (at_volumes tm v hv) (at_offset h fl st) (take n bytes) in
      let all : (given ++ take n bytes) ++ drop n bytes ≡ given ++ bytes =
        append_assoc given (take n bytes) (drop n bytes)
        ∙ ap (λ z. given ++ z) (take-append-drop n bytes) in
      let more : (length bytes == 0) ≡ false = ground arith in
      let first =
        stage_bytes-Stages v hv fl st (take n bytes) given
          (omega (arith, m, length-append given (take n bytes), length-append given bytes))
          (omega (arith, m)) k in
      rw more (
        subst
          (λ z.
            Stages tm h z
              (elim (r.2) [ error e ↦ r | value _ ↦ write_loop fuel r.0 r.1 (drop n bytes) ]))
          all
          (write_round-Stages fuel (given ++ take n bytes) (drop n bytes) r
            (λ v' hv' fl' st' q left. rest n v' hv' fl' st' refl q left) first))

  -- With room in the buffer, each round takes a byte.
  pub write_loop-Stages :
      (fuel : ℕ) (v hv : Volume) (fl : ℕ) (st bytes given : Bytes)
      → length bytes ≤ fuel
      → length (given ++ bytes) ≤ h.layout.size
      → length st < stage_size h.stage
      → Keeps tm h given v hv fl st
      → Stages tm h
          (given ++ bytes)
          (write_loop fuel (at_volumes tm v hv) (at_offset h fl st) bytes)
  unfolding write_loop Stages
  write_loop-Stages zero v hv fl st [] given enough le left k =
      rw (append-nil given) (v, hv, fl, st, refl, refl, k, left)
  write_loop-Stages (suc fuel) v hv fl st [] given enough le left k =
      rw (append-nil given) (v, hv, fl, st, refl, refl, k, left)
  write_loop-Stages zero v hv fl st (b ∷ bs) given enough le left k = absurd (omega arith)
  write_loop-Stages (suc fuel) v hv fl st (b ∷ bs) given enough le left k =
      write_rounds-Stages fuel v hv fl st (b ∷ bs) given
        (λ n v' hv' fl' st' e q left'.
          write_loop-Stages fuel v' hv' fl' st' (drop n (b ∷ bs)) (given ++ take n (b ∷ bs))
            (omega (arith, length-drop n (b ∷ bs), e, left))
            (omega (
              arith,
              le,
              length-append given (b ∷ bs),
              length-append (given ++ take n (b ∷ bs)) (drop n (b ∷ bs)),
              length-append given (take n (b ∷ bs)),
              length-take n (b ∷ bs),
              length-drop n (b ∷ bs),
            ))
            left' q)
        le (omega (arith, left)) (omega arith) k
