-- ===== src/Hash/Cuckoo/Evict.antt =====
-- `reHash`: what a chain of moves does to the table. A chain that ends visits no slot twice, since
-- the number of moves that are left falls along it; so no move overwrites what a later one needs.
use coding_demo.Base.{
  ℕ, zero, suc, ◌≤◌, ◌<◌, ◌≡◌, refl, ap, sym, ◌∙◌, ◌≢◌, ◌⊎◌, inl, inr, arith, ℤ, pos,
}
use mathlib.Core.Path.{subst}
use coding_demo.Hash.Cuckoo.{Entry, Table, place}
use coding_demo.Hash.Cuckoo.Slots.{
  Slot, at, home, flip, IsSized, home-lt, place-IsSized, n_count-place, at-place_self, at-place_ne,
  Slot-cases, flip-ne, HasKey, IsValid, Holds,
}

-- The other slot of a key that stands in `s`.
abbrev pub other : Table → Slot → ℕ → Slot
other t s k = (flip s.0, home t.n_count (flip s.0) k)

-- The chain from `s` ends in an empty slot after `m` moves.
abbrev pub Rank : Table → Slot → ℕ → Type 0
Rank t s zero = (at t s).key ≡ pos 0
Rank t s (suc m) = (k : ℕ) × HasKey t s k × Rank t (other t s k) m

pub pos-injective : {a b : ℕ} → ◌≡◌ {A = ℤ} (pos a) (pos b) → a ≡ b
pos-injective h = cc

pub HasKey-unique : (t : Table) (s : Slot) (j k : ℕ) → HasKey t s j → HasKey t s k → j ≡ k
HasKey-unique t s j k h g = pos-injective (sym h.0 ∙ g.0)

Rank-unique : (t : Table) (s : Slot) (m n : ℕ) → Rank t s m → Rank t s n → m ≡ n
Rank-unique t s zero zero r q = refl
Rank-unique t s zero (suc n) r q = absurd (q.1.1 (pos-injective (sym q.1.0 ∙ r)))
Rank-unique t s (suc m) zero r q = absurd (r.1.1 (pos-injective (sym r.1.0 ∙ q)))
Rank-unique t s (suc m) (suc n) r q =
    let same = HasKey-unique t s r.0 q.0 r.1 q.1 in
    ap suc (Rank-unique t (other t s q.0) m n (subst (λ k. Rank t (other t s k) m) same r.2) q.2)

-- `t'` holds what `t` held, and the slot `s` of `t'` may be overwritten without loss.
pub record Freed (t : Table) (s : Slot) (m : ℕ) (t' : Table) : Type 0 where
  pub sized : IsSized t'
  pub count : t'.n_count ≡ t.n_count
  pub placed : (q : Slot) (j : ℕ) → HasKey t' q j → q.1 ≡ home t.n_count q.0 j
  pub natural : (q : Slot) → (j : ℕ) × ((at t' q).key ≡ pos j)
  pub untouched : (q : Slot) (n : ℕ) → Rank t q n → m ≤ n → at t' q ≡ at t q
  pub kept :
      (p : Slot) (j : ℕ) → HasKey t p j → (q : Slot) × (q ≢ s) × HasKey t' q j × (at t' q ≡ at t p)
  pub unique : (p q : Slot) (j : ℕ) → p ≢ s → q ≢ s → HasKey t' p j → HasKey t' q j → p ≡ q
  pub old : (q : Slot) (j : ℕ) → HasKey t' q j → Holds t j

-- An empty slot may be overwritten as the table stands.
pub empty-Freed : (t : Table) (s : Slot) → IsValid t → Rank t s 0 → Freed t s 0 t
empty-Freed t s v r = record {
  sized = v.sized;
  count = refl;
  placed = v.placed;
  natural = v.natural;
  untouched = λ q n _ _. refl;
  kept = λ p j h. (p, (λ e. h.1 (pos-injective (sym h.0 ∙ ap (λ q. (at t q).key) e ∙ r))), h, refl);
  unique = λ p q j _ _ h g. v.unique p q j h g;
  old = λ q j h. (q, h);
}

module _ (t t0 : Table) (s : Slot) (k m : ℕ) (v : IsValid t) (h : HasKey t s k)
    (r : Rank t (other t s k) m) (f : Freed t (other t s k) m t0) where
  abbrev e : Entry
  e = at t s

  abbrev a : Slot
  a = other t s k

  abbrev moved : Table
  moved = place a.0 (pos a.1) e t0

  Rank-s : Rank t s (suc m)
  Rank-s = (k, h, r)

  here : at t0 s ≡ e
  here = f.untouched s (suc m) Rank-s (omega arith)

  apart : s ≢ a
  apart = flip-ne s.0 s.1 (home t.n_count (flip s.0) k)

  in_range : a.1 < t0.n_count
  in_range = rw f.count (home-lt t.n_count k (flip s.0) (rw f.count at f.sized.positive))

  at-moved_self : at moved a ≡ e
  at-moved_self = at-place_self a.0 a.1 e t0 f.sized in_range

  at-moved_ne : (q : Slot) → q ≢ a → at moved q ≡ at t0 q
  at-moved_ne q ne = at-place_ne a.0 a.1 e t0 q ne

  -- A key in the moved table stands in `a`, and then it is `k`, or stood there before.
  HasKey-moved :
      (q : Slot) (j : ℕ) → HasKey moved q j → ((q ≡ a) × (j ≡ k)) ⊎ ((q ≢ a) × HasKey t0 q j)
  HasKey-moved q j g = elim (Slot-cases q a) [
    | inl same ↦ inl (
      same,
      pos-injective
          (sym g.0 ∙ ap (λ p. (at moved p).key) same ∙ ap (λ x. x.key) at-moved_self ∙ h.0),
    )
    | inr ne ↦ inr (ne, (ap (λ x. x.key) (sym (at-moved_ne q ne)) ∙ g.0, g.1))
  ]

  HasKey-a : HasKey moved a k
  HasKey-a = (ap (λ x. x.key) at-moved_self ∙ h.0, h.1)

  HasKey-s : HasKey t0 s k
  HasKey-s = (ap (λ x. x.key) here ∙ h.0, h.1)

  keep : (q : Slot) (j : ℕ) → q ≢ a → HasKey t0 q j → HasKey moved q j
  keep q j ne g = (ap (λ x. x.key) (at-moved_ne q ne) ∙ g.0, g.1)

  kept_moved :
      (p : Slot) (j : ℕ)
      → HasKey t p j
      → (q : Slot) × (q ≢ s) × HasKey moved q j × (at moved q ≡ at t p)
  kept_moved p j hold =
      let (q, ne, g, eq) = f.kept p j hold in
      elim (Slot-cases q s) [
        | inl same ↦ (
          a,
          (λ eq. apart (sym eq)),
          subst (HasKey moved a)
              (HasKey-unique t0 s k j HasKey-s (subst (λ p. HasKey t0 p j) same g)) HasKey-a,
          at-moved_self ∙ sym here ∙ ap (at t0) (sym same) ∙ eq,
        )
        | inr away ↦ (q, away, keep q j ne g, at-moved_ne q ne ∙ eq)
      ]

  -- A key that was at `s` and has moved to `a` stands nowhere else but at `s`.
  alone : (q : Slot) (j : ℕ) → q ≢ s → j ≡ k → q ≢ a → HasKey t0 q j → ⊥
  alone q j away same ne g = away (f.unique q s k ne apart (subst (HasKey t0 q) same g) HasKey-s)

  unique_moved : (p q : Slot) (j : ℕ) → p ≢ s → q ≢ s → HasKey moved p j → HasKey moved q j → p ≡ q
  unique_moved p q j np nq gp gq = cases (HasKey-moved p j gp) (HasKey-moved q j gq)
    where
      cases :
          ((p ≡ a) × (j ≡ k)) ⊎ ((p ≢ a) × HasKey t0 p j)
          → ((q ≡ a) × (j ≡ k)) ⊎ ((q ≢ a) × HasKey t0 q j)
          → p ≡ q
      cases (inl x) (inl y) = x.0 ∙ sym y.0
      cases (inl x) (inr y) = absurd (alone q j nq x.1 y.0 y.1)
      cases (inr x) (inl y) = absurd (alone p j np y.1 x.0 x.1)
      cases (inr x) (inr y) = f.unique p q j x.0 y.0 x.1 y.1

  placed_moved : (q : Slot) (j : ℕ) → HasKey moved q j → q.1 ≡ home t.n_count q.0 j
  placed_moved q j g = elim (HasKey-moved q j g) [
    | inl x ↦
        subst (λ (p : Slot). p.1 ≡ home t.n_count p.0 j) (sym x.0)
          (ap (home t.n_count a.0) (sym x.1))
    | inr y ↦ f.placed q j y.1
  ]

  natural_moved : (q : Slot) → (j : ℕ) × ((at moved q).key ≡ pos j)
  natural_moved q = elim (Slot-cases q a) [
    | inl same ↦ (k, ap (λ p. (at moved p).key) same ∙ HasKey-a.0)
    | inr ne ↦ let (j, g) = f.natural q in (j, ap (λ x. x.key) (at-moved_ne q ne) ∙ g)
  ]

  untouched_moved : (q : Slot) (n : ℕ) → Rank t q n → suc m ≤ n → at moved q ≡ at t q
  untouched_moved q n rq le = at-moved_ne q not_a ∙ f.untouched q n rq (omega arith)
    where
      not_a : q ≢ a
      not_a eq = let same = Rank-unique t a n m (subst (λ p. Rank t p n) eq rq) r in omega arith

  old_moved : (q : Slot) (j : ℕ) → HasKey moved q j → Holds t j
  old_moved q j g = elim (HasKey-moved q j g) [
    | inl x ↦ subst (Holds t) (sym x.1) (s, h)
    | inr y ↦ f.old q j y.1
  ]

  -- One more move.
  pub moved-Freed : Freed t s (suc m) moved
  moved-Freed = record {
    sized = place-IsSized a.0 a.1 e t0 f.sized;
    count = n_count-place a.0 a.1 e t0 ∙ f.count;
    placed = placed_moved;
    natural = natural_moved;
    untouched = untouched_moved;
    kept = kept_moved;
    unique = unique_moved;
    old = old_moved;
  }
