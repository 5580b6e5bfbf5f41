-- ===== src/Storage/TierManager/Pins/Protocol.antt =====
-- The pins of resident heads (tier_manager.cpp): a head is given back once, when its owner and its
-- readers are done with it.
use goblin_store.Prelude.{
  ℕ, ◌+◌, ◌-◌, ◌<◌, Bool, true, false, ◌&&◌, ◌==◌, ltb, if◌then◌else◌, Option, none, some, List, [],
  ◌∷◌, ◌++◌, ◌≡◌, refl, sym, arith, ℕ_discrete, Bool-cases, inl, inr, if_pos, if_neg, ◌≢◌, subst,
}
use goblin_store.Prelude.Assoc.{
  find, insert, erase, IsMap, find-insert, find-erase, insert-IsMap, erase-IsMap,
}
use goblin_store.Common.Types.{u32}
use goblin_store.Storage.Index.{HeadLoc}
use goblin_store.Storage.TierManager.{TierManager, HeadPin, RegionPin, region_id}
use goblin_store.Storage.TierManager.Pins.{
  Use, pins, unpins, frees, step, run_uses, id_of, PinMap, freed_entry, freed_pins, fewer,
  unpinned_entry, unpinned_pins, pinned_entry, released, pins_after, log, give_back, step-Does,
  run_uses-ram,
}

-- One region.
module _ (g : HeadPin) where
  abbrev pub hits : HeadPin → Bool
  hits p = id_of p == id_of g

  abbrev pub head_hits : HeadLoc → Bool
  head_hits h = region_id h.block h.offset == id_of g

  -- How often it is handed to the allocator, and that with its length each time.
  unfoldable pub count_of : List HeadPin → ℕ
  count_of [] = 0
  count_of (p ∷ ps) = (if hits p then 1 else 0) + count_of ps

  unfoldable pub AllWhole : List HeadPin → Type 0
  AllWhole [] = Unit
  AllWhole (p ∷ ps) = (hits p ≡ true → p.len ≡ g.len) × AllWhole ps

  -- The readers of the region, and whether its owner has given it back, after a step.
  abbrev pub readers : Use → ℕ → ℕ
  readers (pins h) n = if head_hits h then n + 1 else n
  readers (unpins p) n = if hits p then n - 1 else n
  readers (frees p) n = n

  abbrev pub given : Use → Bool → Bool
  given (pins h) f = f
  given (unpins p) f = f
  given (frees p) f = if hits p then true else f

  -- A step that keeps to the protocol: a head is pinned only while its owner has it, by fewer than
  -- 2 ^ 32 readers, an unpin is by a reader, and the owner gives the head back once.
  abbrev pub Allowed : Use → ℕ → Bool → Type 0
  Allowed (pins h) n f = head_hits h ≡ true → (f ≡ false) × (n + 1 < u32)
  Allowed (unpins p) n f = hits p ≡ true → (0 < n) × (p.len ≡ g.len)
  Allowed (frees p) n f = hits p ≡ true → (f ≡ false) × (p.len ≡ g.len)

  abbrev pub Protocol : List Use → ℕ → Bool → Type 0
  Protocol [] n f = Unit
  Protocol (u ∷ us) n f = Allowed u n f × Protocol us (readers u n) (given u f)

  abbrev pub readers_after : List Use → ℕ → ℕ
  readers_after [] n = n
  readers_after (u ∷ us) n = readers_after us (readers u n)

  abbrev pub given_after : List Use → Bool → Bool
  given_after [] f = f
  given_after (u ∷ us) f = given_after us (given u f)

  -- What the pins have for the region.
  abbrev pub Entry : Option RegionPin → ℕ → Bool → Type 0
  Entry none n f = n ≡ 0
  Entry (some p) n f = (0 < n) × (n < u32) × (p.refcount ≡ n) × (p.orphaned ≡ f)

  abbrev pub due : ℕ → Bool → ℕ
  due n f = if f && n == 0 then 1 else 0

  -- The pins are a map, with the readers of the region.
  pub record Held (m : PinMap) (n : ℕ) (f : Bool) : Type 0 where
    pub map : IsMap ℕ_discrete m
    pub entry : Entry (find ℕ_discrete (id_of g) m) n f

  -- A step from the pins `m` that leaves the pins `m'` and hands these heads to the allocator.
  record Stepped (m' : PinMap) (gone : List HeadPin) (n : ℕ) (f : Bool) (k : ℕ) (e : Bool)
      : Type 0 where
    held : Held m' k e
    count : count_of gone + due n f ≡ due k e
    whole : AllWhole gone

  -- A write to one entry of the pins.
  insert-Held :
      (m : PinMap) (id : ℕ) (q : RegionPin) (k : ℕ) (e : Bool)
      → IsMap ℕ_discrete m
      → (id ≡ id_of g → Entry (some q) k e)
      → (id ≢ id_of g → Entry (find ℕ_discrete (id_of g) m) k e)
      → Held (insert ℕ_discrete id q m) k e
  insert-Held m id q k e v hit miss = record {
    map = insert-IsMap ℕ_discrete id q m v;
    entry = elim (ℕ_discrete id (id_of g)) [
      | yes same ↦ rw (find-insert ℕ_discrete (id_of g) id q m, if_pos _ same) (hit same)
      | no other ↦ rw (find-insert ℕ_discrete (id_of g) id q m, if_neg _ other) (miss other)
    ];
  }

  erase-Held :
      (m : PinMap) (id k : ℕ) (e : Bool)
      → IsMap ℕ_discrete m
      → (id ≡ id_of g → k ≡ 0)
      → (id ≢ id_of g → Entry (find ℕ_discrete (id_of g) m) k e)
      → Held (erase ℕ_discrete id m) k e
  erase-Held m id k e v hit miss = record {
    map = erase-IsMap ℕ_discrete id m v;
    entry = elim (ℕ_discrete id (id_of g)) [
      | yes same ↦ rw (find-erase ℕ_discrete (id_of g) id m v, if_pos _ same) (hit same)
      | no other ↦ rw (find-erase ℕ_discrete (id_of g) id m v, if_neg _ other) (miss other)
    ];
  }

  module _ (m : PinMap) (n : ℕ) (f : Bool) (v : Held m n f) where
    -- What the entry at a number says, where that is the region's.
    entry_at :
        (id : ℕ) (o : Option RegionPin) → find ℕ_discrete id m ≡ o → id ≡ id_of g → Entry o n f
    entry_at id o found same =
        let here : find ℕ_discrete (id_of g) m ≡ o = rw (sym same) found in
        subst (λ t. Entry t n f) here v.entry

    pins-Stepped :
        (h : HeadLoc) (o : Option RegionPin)
        → find ℕ_discrete (region_id h.block h.offset) m ≡ o
        → Allowed (pins h) n f
        → Stepped
            (insert ℕ_discrete (region_id h.block h.offset) (pinned_entry h.len o) m)
            []
            n
            f
            (readers (pins h) n)
            f
    unfolding count_of AllWhole pinned_entry
    pins-Stepped h none e ok = elim (ℕ_discrete (region_id h.block h.offset) (id_of g)) [
      | yes same ↦
          let on : head_hits h ≡ true = ground arith in
          let none_yet = entry_at (region_id h.block h.offset) none e same in
          let (mine, room) = ok on in
          rw on (record {
            held =
                insert-Held m (region_id h.block h.offset) (pinned_entry h.len none) (n + 1) f v.map
                  (λ _. ground arith) (λ other. absurd (other same));
            count = ground arith;
            whole = tt;
          })
      | no other ↦
          let off : head_hits h ≡ false = ground arith in
          rw off (record {
            held =
                insert-Held m (region_id h.block h.offset) (pinned_entry h.len none) n f v.map
                  (λ same. absurd (other same)) (λ _. v.entry);
            count = omega arith;
            whole = tt;
          })
    ]
    pins-Stepped h (some q) e ok = elim (ℕ_discrete (region_id h.block h.offset) (id_of g)) [
      | yes same ↦
          let on : head_hits h ≡ true = ground arith in
          let some_yet = entry_at (region_id h.block h.offset) (some q) e same in
          let (mine, room) = ok on in
          rw on (record {
            held =
                insert-Held m (region_id h.block h.offset) (pinned_entry h.len (some q)) (n + 1) f
                  v.map (λ _. ground arith) (λ other. absurd (other same));
            count = ground arith;
            whole = tt;
          })
      | no other ↦
          let off : head_hits h ≡ false = ground arith in
          rw off (record {
            held =
                insert-Held m (region_id h.block h.offset) (pinned_entry h.len (some q)) n f v.map
                  (λ same. absurd (other same)) (λ _. v.entry);
            count = omega arith;
            whole = tt;
          })
    ]

    unpins-Stepped :
        (p : HeadPin) (o : Option RegionPin)
        → find ℕ_discrete (id_of p) m ≡ o
        → Allowed (unpins p) n f
        → Stepped (unpinned_pins m (id_of p) o) (unpinned_entry p o) n f (readers (unpins p) n) f
    unfolding count_of AllWhole unpinned_pins unpinned_entry
    unpins-Stepped p none e ok = elim (ℕ_discrete (id_of p) (id_of g)) [
      | yes same ↦
          let on : hits p ≡ true = ground arith in
          let none_yet = entry_at (id_of p) none e same in absurd (omega (arith, (ok on).0))
      | no other ↦
          let off : hits p ≡ false = ground arith in
          rw off (record { held = v; count = omega arith; whole = tt })
    ]
    unpins-Stepped p (some q) e ok = elim (ℕ_discrete (id_of p) (id_of g)) [
      | yes same ↦
          let on : hits p ≡ true = ground arith in
          let some_yet = entry_at (id_of p) (some q) e same in
          let (one, len) = ok on in
          let count : fewer q ≡ n - 1 = omega arith in
          rw on (elim (Bool-cases (fewer q == 0)) [
            | inl last ↦
                let none_left : n - 1 ≡ 0 = ground arith in
                rw last (record {
                  held =
                      erase-Held m (id_of p) (n - 1) f v.map (λ _. none_left)
                        (λ other. absurd (other same));
                  count = ground arith;
                  whole = ground arith;
                })
            | inr more ↦ rw more (record {
              held =
                  insert-Held m (id_of p) (record q { refcount = fewer q }) (n - 1) f v.map
                    (λ _. ground arith) (λ other. absurd (other same));
              count = ground arith;
              whole = tt;
            })
          ])
      | no other ↦
          let off : hits p ≡ false = ground arith in
          rw off (elim (Bool-cases (fewer q == 0)) [
            | inl last ↦ rw last (record {
              held = erase-Held m (id_of p) n f v.map (λ same. absurd (other same)) (λ _. v.entry);
              count = ground arith;
              whole = ground arith;
            })
            | inr more ↦ rw more (record {
              held =
                  insert-Held m (id_of p) (record q { refcount = fewer q }) n f v.map
                    (λ same. absurd (other same)) (λ _. v.entry);
              count = omega arith;
              whole = tt;
            })
          ])
    ]

    frees-Stepped :
        (p : HeadPin) (o : Option RegionPin)
        → find ℕ_discrete (id_of p) m ≡ o
        → Allowed (frees p) n f
        → Stepped (freed_pins m (id_of p) o) (freed_entry p o) n f n (given (frees p) f)
    unfolding count_of AllWhole freed_pins freed_entry
    frees-Stepped p none e ok = elim (ℕ_discrete (id_of p) (id_of g)) [
      | yes same ↦
          let on : hits p ≡ true = ground arith in
          let none_yet : n ≡ 0 = entry_at (id_of p) none e same in
          let (mine, len) = ok on in
          rw on (record {
            held = record { map = v.map; entry = rw (sym same, e) none_yet };
            count = ground arith;
            whole = (λ _. len, tt);
          })
      | no other ↦
          let off : hits p ≡ false = ground arith in
          rw off (record { held = v; count = ground arith; whole = (λ on. absurd (cc), tt) })
    ]
    frees-Stepped p (some q) e ok = elim (ℕ_discrete (id_of p) (id_of g)) [
      | yes same ↦
          let on : hits p ≡ true = ground arith in
          let some_yet = entry_at (id_of p) (some q) e same in
          let (mine, len) = ok on in
          let busy : ltb 0 q.refcount ≡ true = ground arith in
          rw (on, busy)
            (record {
              held =
                  insert-Held m (id_of p) (record q { orphaned = true }) n true v.map
                    (λ _. ground arith) (λ other. absurd (other same));
              count = ground arith;
              whole = tt;
            })
      | no other ↦
          let off : hits p ≡ false = ground arith in
          rw off (elim (Bool-cases (ltb 0 q.refcount)) [
            | inl busy ↦ rw busy (record {
              held =
                  insert-Held m (id_of p) (record q { orphaned = true }) n f v.map
                    (λ same. absurd (other same)) (λ _. v.entry);
              count = omega arith;
              whole = tt;
            })
            | inr idle ↦
                rw idle (record { held = v; count = ground arith; whole = (λ on. absurd (cc), tt) })
          ])
    ]

  count_of-append : (ps qs : List HeadPin) → count_of (ps ++ qs) ≡ count_of ps + count_of qs
  unfolding count_of
  count_of-append [] qs = omega arith
  count_of-append (p ∷ ps) qs = omega (arith, count_of-append ps qs)

  AllWhole-append : (ps qs : List HeadPin) → AllWhole ps → AllWhole qs → AllWhole (ps ++ qs)
  unfolding AllWhole
  AllWhole-append [] qs v w = w
  AllWhole-append (p ∷ ps) qs v w = (v.0, AllWhole-append ps qs v.1 w)

  step-Stepped :
      (m : PinMap) (u : Use) (n : ℕ) (f : Bool)
      → Held m n f
      → Allowed u n f
      → Stepped (pins_after m u) (released m u) n f (readers u n) (given u f)
  unfolding pins_after released
  step-Stepped m (pins h) n f v ok =
      pins-Stepped m n f v h (find ℕ_discrete (region_id h.block h.offset) m) refl ok
  step-Stepped m (unpins p) n f v ok =
      unpins-Stepped m n f v p (find ℕ_discrete (id_of p) m) refl ok
  step-Stepped m (frees p) n f v ok = frees-Stepped m n f v p (find ℕ_discrete (id_of p) m) refl ok

  log-due :
      (us : List Use) (tm : TierManager) (n : ℕ) (f : Bool)
      → Held tm.pins n f
      → Protocol us n f
      → (count_of (log us tm) + due n f ≡ due (readers_after us n) (given_after us f))
        × AllWhole (log us tm)
  unfolding log count_of AllWhole
  log-due [] tm n f v ok = (omega arith, tt)
  log-due (u ∷ us) tm n f v ok =
      let s = step-Stepped tm.pins u n f v ok.0 in
      let held = subst (λ m. Held m (readers u n) (given u f)) (sym (step-Does tm u).1) s.held in
      let rest = log-due us (step tm u) (readers u n) (given u f) held ok.1 in
      (
        omega (arith, count_of-append (released tm.pins u) (log us (step tm u)), s.count, rest.0),
        AllWhole-append (released tm.pins u) (log us (step tm u)) s.whole rest.1,
      )

  -- Any interleaving of readers that pin and unpin heads and of owners that give them back, from a
  -- state with no pins, that keeps to the protocol for a region: the allocator takes back the heads of
  -- a log, in order, and the region stands in that log once, with its length, if its owner has given
  -- it back and no reader is left, and not at all otherwise. So a pinned head is never freed, none is
  -- freed twice, and none is lost.
  pub run_uses-releases :
      (us : List Use) (tm : TierManager)
      → tm.pins ≡ []
      → Protocol us 0 false
      → ((run_uses us tm).ram ≡ give_back (log us tm) tm.ram)
        × (count_of (log us tm)
            ≡ (if given_after us false && readers_after us 0 == 0 then 1 else 0))
        × AllWhole (log us tm)
  unfolding find
  run_uses-releases us tm empty ok =
      let held : Held tm.pins 0 false = rw empty (record { map = tt; entry = refl }) in
      let (count, whole) = log-due us tm 0 false held ok in
      (run_uses-ram us tm, omega (arith, count), whole)
