-- ===== src/Core/Buddy/Weights.antt =====
-- Sums over the free lists of a buddy allocator (core/buffer_pool.cpp), and what its pushes, pops
-- and erasures make of them.
use goblin_store.Prelude.{
  ℕ, zero, suc, ◌+◌, ◌<◌, true, none, some, List, [], ◌∷◌, ◌++◌, length, get_or, set, ◌≡◌, ◌≢◌,
  refl, arith, ℕ_discrete, ap, Option-cases, inl, inr,
}
use goblin_store.Prelude.Assoc.{member, drop_member}
use goblin_store.Core.Buddy.{pop_back, push_back}

abbrev pub Weight : Type 0
Weight = ℕ → ℕ → ℕ

abbrev pub weigh_list : (ℕ → ℕ) → List ℕ → ℕ
weigh_list w [] = 0
weigh_list w (x ∷ xs) = w x + weigh_list w xs

-- The free blocks of all orders, from an order on.
abbrev pub weigh : Weight → ℕ → List (List ℕ) → ℕ
weigh w order [] = 0
weigh w order (l ∷ ls) = weigh_list (w order) l + weigh w (suc order) ls

pub weigh_list-append :
    (w : ℕ → ℕ) (xs : List ℕ) (x : ℕ) → weigh_list w (xs ++ x ∷ []) ≡ weigh_list w xs + w x
weigh_list-append w [] x = omega arith
weigh_list-append w (y ∷ ys) x = omega (arith, weigh_list-append w ys x)

pub weigh_list-drop_member :
    (w : ℕ → ℕ) (x : ℕ) (xs : List ℕ)
    → member ℕ_discrete x xs ≡ true
    → weigh_list w (drop_member ℕ_discrete x xs) + w x ≡ weigh_list w xs
unfolding member drop_member
weigh_list-drop_member w x [] h = cc
weigh_list-drop_member w x (y ∷ ys) h =
    ground (arith, weigh_list-drop_member w x ys, ap w {x = y} {y = x})

pub weigh-set :
    (w : Weight) (k : ℕ) (ls : List (List ℕ)) (i : ℕ) (l : List ℕ)
    → i < length ls
    → weigh w k (set ls i l) + weigh_list (w (k + i)) (get_or ls i [])
      ≡ weigh w k ls + weigh_list (w (k + i)) l
weigh-set w k [] i l h = absurd (omega arith)
weigh-set w k (x ∷ ls) zero l h = let e : k + 0 ≡ k = omega arith in rw e (omega arith)
weigh-set w k (x ∷ ls) (suc i) l h =
    let e : k + suc i ≡ suc k + i = omega arith in
    rw e (omega (arith, weigh-set w (suc k) ls i l (omega arith)))

pub weigh-push_back :
    (w : Weight) (ls : List (List ℕ)) (i off : ℕ)
    → i < length ls
    → weigh w 0 (push_back ls i off) ≡ weigh w 0 ls + w i off
unfolding push_back
weigh-push_back w ls i off h =
    let e : 0 + i ≡ i = omega arith in
    let s = weigh-set w 0 ls i (get_or ls i [] ++ off ∷ []) h in
    let s' = rw e at s in omega (arith, s', weigh_list-append (w i) (get_or ls i []) off)

pop_back_some : (x : ℕ) (xs : List ℕ) → pop_back (x ∷ xs) ≢ none
unfolding pop_back
pop_back_some x xs h = elim (Option-cases (pop_back xs)) [
  | inl e ↦ ground arith
  | inr (q, e) ↦ ground arith
]

pub pop_back_empty : (xs : List ℕ) → pop_back xs ≡ none → xs ≡ []
pop_back_empty [] h = refl
pop_back_empty (x ∷ xs) h = absurd (pop_back_some x xs h)

pub pop_back-append : (xs : List ℕ) (p : List ℕ × ℕ) → pop_back xs ≡ some p → xs ≡ p.0 ++ p.1 ∷ []
unfolding pop_back
pop_back-append [] p h = cc
pop_back-append (x ∷ xs) p h = elim (Option-cases (pop_back xs)) [
  | inl e ↦ ground (arith, pop_back_empty xs e)
  | inr (q, e) ↦ ground (arith, pop_back-append xs q e)
]
