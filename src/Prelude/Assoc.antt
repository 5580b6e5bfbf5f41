-- ===== src/Prelude/Assoc.antt =====
-- A hash map as an association list with one entry per key, and a hash set as a list.
use Prim.Native.Nat.{ℕ, ◌+◌}
use mathlib.Core.Path.{◌≡◌, refl}
use mathlib.Core.Logic.{ite}
use mathlib.Core.Bool.{Bool, true, false}
use mathlib.Core.Option.{Option, none, some}
use mathlib.Core.List.{List, [], ◌∷◌, ◌++◌}
use native.Mathlib.Omega.{arith}
use goblin_store.Prelude.Lists.{length}

-- Sets are over a small type: a `Bool` and a list at one level keep `ground` well typed.
module _ {K : Type 0} (dec : Discrete K) where
  unfoldable pub member : K → List K → Bool
  member k [] = false
  member k (j ∷ ks) = ite (dec j k) true (member k ks)

  -- `unordered_set::insert`
  unfoldable pub add_member : K → List K → List K
  add_member k [] = k ∷ []
  add_member k (j ∷ ks) = ite (dec j k) (j ∷ ks) (j ∷ add_member k ks)

  -- `unordered_set::erase(key)`
  unfoldable pub drop_member : K → List K → List K
  drop_member k [] = []
  drop_member k (j ∷ ks) = ite (dec j k) ks (j ∷ drop_member k ks)

  -- No key twice.
  abbrev pub IsDistinct : List K → Type 0
  IsDistinct [] = Unit
  IsDistinct (k ∷ ks) = (member k ks ≡ false) × IsDistinct ks

  pub member-append :
      (j : K) (ks : List K) (k : K) → member j (ks ++ k ∷ []) ≡ ite (dec k j) true (member j ks)
  unfolding member
  member-append j [] k = refl
  member-append j (i ∷ ks) k = ground (arith, member-append j ks k)

  pub member-add_member :
      (j k : K) (ks : List K) → member j (add_member k ks) ≡ ite (dec k j) true (member j ks)
  unfolding member add_member
  member-add_member j k [] = refl
  member-add_member j k (i ∷ ks) = ground (arith, member-add_member j k ks)

  pub member-drop_member :
      (j k : K) (ks : List K)
      → IsDistinct ks
      → member j (drop_member k ks) ≡ ite (dec k j) false (member j ks)
  unfolding member drop_member
  member-drop_member j k [] h = ground arith
  member-drop_member j k (i ∷ ks) h = ground (arith, member-drop_member j k ks h.1)

  pub add_member-IsDistinct : (k : K) (ks : List K) → IsDistinct ks → IsDistinct (add_member k ks)
  unfolding member add_member
  add_member-IsDistinct k [] h = (refl, tt)
  add_member-IsDistinct k (j ∷ ks) h =
      ground (arith, add_member-IsDistinct k ks h.1, member-add_member j k ks)

  pub drop_member-IsDistinct : (k : K) (ks : List K) → IsDistinct ks → IsDistinct (drop_member k ks)
  unfolding member drop_member
  drop_member-IsDistinct k [] h = tt
  drop_member-IsDistinct k (j ∷ ks) h =
      ground (arith, drop_member-IsDistinct k ks h.1, member-drop_member j k ks h.1)

module _ {ℓ} {K V : Type ℓ} (dec : Discrete K) where
  -- `unordered_map::find`
  unfoldable pub find : K → List (K × V) → Option V
  find k [] = none
  find k ((j, v) ∷ m) = ite (dec j k) (some v) (find k m)

  -- `insert_or_assign`
  unfoldable pub insert : K → V → List (K × V) → List (K × V)
  insert k v [] = (k, v) ∷ []
  insert k v ((j, w) ∷ m) = ite (dec j k) ((k, v) ∷ m) ((j, w) ∷ insert k v m)

  -- `erase(key)`
  unfoldable pub erase : K → List (K × V) → List (K × V)
  erase k [] = []
  erase k ((j, w) ∷ m) = ite (dec j k) m ((j, w) ∷ erase k m)

  -- No key has two entries.
  abbrev pub IsMap : List (K × V) → Type ℓ
  IsMap [] = Unit
  IsMap ((k, v) ∷ m) = (find k m ≡ none) × IsMap m

  pub find-insert :
      (j k : K) (v : V) (m : List (K × V))
      → find j (insert k v m) ≡ ite (dec k j) (some v) (find j m)
  unfolding find insert
  find-insert j k v [] = refl
  find-insert j k v ((i, w) ∷ m) = ground (arith, find-insert j k v m)

  pub find-erase :
      (j k : K) (m : List (K × V)) → IsMap m → find j (erase k m) ≡ ite (dec k j) none (find j m)
  unfolding find erase
  find-erase j k [] h = ground arith
  find-erase j k ((i, w) ∷ m) h = ground (arith, find-erase j k m h.1)

  pub insert-IsMap : (k : K) (v : V) (m : List (K × V)) → IsMap m → IsMap (insert k v m)
  unfolding find insert
  insert-IsMap k v [] h = (refl, tt)
  insert-IsMap k v ((j, w) ∷ m) h = ground (arith, insert-IsMap k v m h.1, find-insert j k v m)

  pub erase-IsMap : (k : K) (m : List (K × V)) → IsMap m → IsMap (erase k m)
  unfolding find erase
  erase-IsMap k [] h = tt
  erase-IsMap k ((j, w) ∷ m) h = ground (arith, erase-IsMap k m h.1, find-erase j k m h.1)

  -- The sum of a weight over the entries.
  abbrev pub total : (V → ℕ) → List (K × V) → ℕ
  total f [] = 0
  total f ((k, v) ∷ m) = f v + total f m

  pub total-insert_new :
      (f : V → ℕ) (k : K) (v : V) (m : List (K × V))
      → find k m ≡ none
      → total f (insert k v m) ≡ total f m + f v
  unfolding find insert
  total-insert_new f k v [] h = omega arith
  total-insert_new f k v ((j, w) ∷ m) h = ground (arith, total-insert_new f k v m)

  pub total-insert_old :
      (f : V → ℕ) (k : K) (v w : V) (m : List (K × V))
      → find k m ≡ some w
      → total f (insert k v m) + f w ≡ total f m + f v
  unfolding find insert
  total-insert_old f k v w [] h = cc
  total-insert_old f k v w ((j, u) ∷ m) h = ground (arith, total-insert_old f k v w m)

  pub total-erase :
      (f : V → ℕ) (k : K) (w : V) (m : List (K × V))
      → find k m ≡ some w
      → total f (erase k m) + f w ≡ total f m
  unfolding find erase
  total-erase f k w [] h = cc
  total-erase f k w ((j, u) ∷ m) h = ground (arith, total-erase f k w m)

  pub length-total : (m : List (K × V)) → length m ≡ total (λ v. 1) m
  length-total [] = refl
  length-total (e ∷ m) = omega (arith, length-total m)

  pub erase_absent : (k : K) (m : List (K × V)) → find k m ≡ none → erase k m ≡ m
  unfolding find erase
  erase_absent k [] h = refl
  erase_absent k ((j, w) ∷ m) h = ground (arith, erase_absent k m)

  pub length-insert_new :
      (k : K) (v : V) (m : List (K × V)) → find k m ≡ none → length (insert k v m) ≡ length m + 1
  unfolding find insert
  length-insert_new k v [] h = refl
  length-insert_new k v ((j, w) ∷ m) h = ground (arith, length-insert_new k v m)

  pub length-insert_old :
      (k : K) (v w : V) (m : List (K × V)) → find k m ≡ some w → length (insert k v m) ≡ length m
  unfolding find insert
  length-insert_old k v w [] h = cc
  length-insert_old k v w ((j, u) ∷ m) h = ground (arith, length-insert_old k v w m)

  pub length-erase :
      (k : K) (w : V) (m : List (K × V)) → find k m ≡ some w → length (erase k m) + 1 ≡ length m
  unfolding find erase
  length-erase k w [] h = cc
  length-erase k w ((j, u) ∷ m) h = ground (arith, length-erase k w m)
