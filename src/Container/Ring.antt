-- ===== src/Container/Ring.antt =====
-- What a ring of links is, and that changes elsewhere keep it.
pub mod Insert
pub mod Remove
pub mod Swap
pub mod Visit
pub mod Sweep
use coding_demo.Base.{◌≡◌, ◌≢◌, refl, Bool, true, false, ◌||◌, List, [], ◌∷◌, ◌++◌, arith, ◌==◌}
use coding_demo.Container.{Ptr, null, Memory}

abbrev pub has : Ptr → List Ptr → Bool
has a [] = false
has a (x ∷ xs) = (a == x) || has a xs

infix 40 ◌∉◌
abbrev pub ◌∉◌ : Ptr → List Ptr → Type 0
a ∉ xs = has a xs ≡ false

-- From `a` the links lead through the nodes `xs` to `z`, in both directions.
abbrev pub Linked : Memory → Ptr → List Ptr → Ptr → Type 0
Linked m a [] z = (m.next a ≡ z) × (m.prev z ≡ a)
Linked m a (x ∷ xs) z = (m.next a ≡ x) × (m.prev x ≡ a) × Linked m x xs z

abbrev pub AreDistinct : List Ptr → Type 0
AreDistinct [] = Unit
AreDistinct (x ∷ xs) = (x ∉ xs) × AreDistinct xs

-- The list at `head` holds the nodes `xs`, in order.
pub record IsRing (m : Memory) (head : Ptr) (xs : List Ptr) : Type 0 where
  pub links : Linked m head xs head
  pub distinct : AreDistinct (head ∷ xs)
  pub no_null : null ∉ (head ∷ xs)

-- Nodes that are not in `xs` keep their links.
abbrev pub SameOutside : List Ptr → Memory → Memory → Type 0
SameOutside xs m m' = (p : Ptr) → p ∉ xs → (m'.next p ≡ m.next p) × (m'.prev p ≡ m.prev p)

pub has-append : (a : Ptr) (xs ys : List Ptr) → has a (xs ++ ys) ≡ (has a xs || has a ys)
has-append a [] ys = refl
has-append a (x ∷ xs) ys = ground (arith, has-append a xs ys)

-- A chain reads only the `next` of its nodes and its start, and the `prev` of its nodes and its
-- end.
pub Linked-frame :
    (m m' : Memory) (a z : Ptr) (xs : List Ptr)
    → ((p : Ptr) → has p (a ∷ xs) ≡ true → m'.next p ≡ m.next p)
    → ((p : Ptr) → has p (xs ++ z ∷ []) ≡ true → m'.prev p ≡ m.prev p)
    → Linked m a xs z
    → Linked m' a xs z
Linked-frame m m' a z [] n p l = (ground (arith, n a), ground (arith, p z))
Linked-frame m m' a z (x ∷ xs) n p l = (
  ground (arith, n a),
  ground (arith, p x),
  Linked-frame m m' x z xs (λ q h. n q (ground arith)) (λ q h. p q (ground arith)) l.2,
)

-- Two chains that meet.
pub Linked-append :
    (m : Memory) (a y z : Ptr) (xs ys : List Ptr)
    → Linked m a (xs ++ y ∷ ys) z
    → Linked m a xs y × Linked m y ys z
Linked-append m a y z [] ys l = ((l.0, l.1), l.2)
Linked-append m a y z (x ∷ xs) ys l =
    let t = Linked-append m x y z xs ys l.2 in ((l.0, l.1, t.0), t.1)

pub append-Linked :
    (m : Memory) (a y z : Ptr) (xs ys : List Ptr)
    → Linked m a xs y
    → Linked m y ys z
    → Linked m a (xs ++ y ∷ ys) z
append-Linked m a y z [] ys l r = (l.0, l.1, r)
append-Linked m a y z (x ∷ xs) ys l r = (l.0, l.1, append-Linked m x y z xs ys l.2 r)

-- The node before the end, and the node after the start.
abbrev pub last_of : Ptr → List Ptr → Ptr
last_of a [] = a
last_of a (x ∷ xs) = last_of x xs

abbrev pub first_of : List Ptr → Ptr → Ptr
first_of [] z = z
first_of (x ∷ xs) z = x

pub prev-last_of :
    (m : Memory) (a z : Ptr) (xs : List Ptr) → Linked m a xs z → m.prev z ≡ last_of a xs
prev-last_of m a z [] l = l.1
prev-last_of m a z (x ∷ xs) l = prev-last_of m x z xs l.2

pub next-first_of :
    (m : Memory) (a z : Ptr) (xs : List Ptr) → Linked m a xs z → m.next a ≡ first_of xs z
next-first_of m a z [] l = l.0
next-first_of m a z (x ∷ xs) l = l.0

pub has-last_of : (a : Ptr) (xs : List Ptr) → has (last_of a xs) (a ∷ xs) ≡ true
has-last_of a [] = ground arith
has-last_of a (x ∷ xs) = ground (arith, has-last_of x xs)

-- The last link of a chain is led to `e`.
pub Linked-retarget :
    (m m' : Memory) (a z e : Ptr) (xs : List Ptr)
    → AreDistinct (a ∷ xs)
    → m'.next (last_of a xs) ≡ e
    → m'.prev e ≡ last_of a xs
    → ((p : Ptr) → has p (a ∷ xs) ≡ true → p ≢ last_of a xs → m'.next p ≡ m.next p)
    → ((p : Ptr) → has p xs ≡ true → m'.prev p ≡ m.prev p)
    → Linked m a xs z
    → Linked m' a xs e
Linked-retarget m m' a z e [] d en ep n p l = (en, ep)
Linked-retarget m m' a z e (x ∷ xs) d en ep n p l = (
  ground (arith, n a, has-last_of x xs),
  ground (arith, p x),
  Linked-retarget m m' x z e xs d.1 en ep (λ q h ne. n q (ground arith) ne)
      (λ q h. p q (ground arith)) l.2,
)

-- The parts of a list of distinct nodes.
pub AreDistinct-append :
    (xs ys : List Ptr)
    → AreDistinct (xs ++ ys)
    → AreDistinct xs × AreDistinct ys × ((p : Ptr) → has p xs ≡ true → p ∉ ys)
AreDistinct-append [] ys d = (tt, d, λ p h. cc)
AreDistinct-append (x ∷ xs) ys d =
    let t = AreDistinct-append xs ys d.1 in
    (
      (ground (arith, has-append x xs ys), t.0),
      t.1,
      λ p h. ground (arith, has-append x xs ys, t.2 p),
    )

-- No node of a ring, and so none of its neighbours, is NULL.
pub first_of-ne-null : (head : Ptr) (xs : List Ptr) → null ∉ (head ∷ xs) → first_of xs head ≢ null
first_of-ne-null head [] h = ground arith
first_of-ne-null head (x ∷ xs) h = ground arith

pub has-first_of : (z : Ptr) (xs : List Ptr) → has (first_of xs z) (z ∷ xs) ≡ true
has-first_of z [] = ground arith
has-first_of z (x ∷ xs) = ground arith

pub last_of-ne-null : (head : Ptr) (xs : List Ptr) → null ∉ (head ∷ xs) → last_of head xs ≢ null
last_of-ne-null head xs h = ground (arith, has-last_of head xs)
