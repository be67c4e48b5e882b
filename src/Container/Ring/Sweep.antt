-- ===== src/Container/Ring/Sweep.antt =====
-- `list_for_each_safe` with a body that deletes some of the nodes.
use coding_demo.Base.{
  ℕ, zero, suc, ◌<◌, ◌≡◌, refl, ap, sym, ◌∙◌, Bool, true, false, Option, some, List, [], ◌∷◌, ◌++◌,
  arith, length, Returns, if◌then◌else◌, ◌==◌, Bool-cases, inl, inr,
}
use mathlib.Core.Path.{subst}
use mathlib.Core.List.{append_assoc}
use coding_demo.Container.{Ptr, null, Memory, list_del, visit_safe, list_for_each_safe}
use coding_demo.Container.Ring.{
  SameOutside, IsRing, Linked-append, first_of, next-first_of, first_of-ne-null, has-append,
}
use coding_demo.Container.Ring.Remove.{list_del_lem}

-- The body: `if (gone(p)) list_del(p);`
abbrev pub delete_if : (Ptr → Bool) → Ptr → Memory → Option Memory
delete_if gone p m = if gone p then list_del p m else some m

abbrev pub kept : (Ptr → Bool) → List Ptr → List Ptr
kept gone [] = []
kept gone (x ∷ xs) = if gone x then kept gone xs else x ∷ kept gone xs

-- `q` is the node behind the first one, where there is one.
abbrev IsSecond : List Ptr → Ptr → Ptr → Type 0
IsSecond [] head q = Unit
IsSecond (x ∷ xs) head q = q ≡ first_of xs head

next-IsSecond :
    (m : Memory) (head : Ptr) (done xs : List Ptr)
    → IsRing m head (done ++ xs)
    → IsSecond xs head (m.next (first_of xs head))
next-IsSecond m head done [] r = tt
next-IsSecond m head done (x ∷ xs) r =
    next-first_of m x head xs (Linked-append m head x head done xs r.links).1

SameOutside-trans :
    (head x : Ptr) (done xs : List Ptr) (m m1 m2 : Memory)
    → SameOutside (head ∷ done ++ x ∷ xs) m m1
    → SameOutside (head ∷ done ++ xs) m1 m2
    → SameOutside (head ∷ done ++ x ∷ xs) m m2
SameOutside-trans head x done xs m m1 m2 a b p out =
    let inside = b p (ground (arith, out, has-append p done (x ∷ xs), has-append p done xs)) in
    (inside.0 ∙ (a p out).0, inside.1 ∙ (a p out).1)

module _ (gone : Ptr → Bool) (head : Ptr) where
  visit_safe_lem :
      (fuel : ℕ) (done rest : List Ptr) (q : Ptr) (m : Memory)
      → IsRing m head (done ++ rest)
      → IsSecond rest head q
      → length rest < fuel
      → Returns (visit_safe fuel (delete_if gone) (first_of rest head) q head m) λ out.
        (out.0 ≡ rest)
        × IsRing out.1 head (done ++ kept gone rest)
        × SameOutside (head ∷ done ++ rest) m out.1
  unfolding visit_safe
  visit_safe_lem zero done rest q m r second lt = absurd (omega arith)
  visit_safe_lem (suc fuel) done [] q m r second lt =
      let at_end : (head == head) ≡ true = ground arith in
      (([], m), rw at_end refl, (refl, r, λ p out. (refl, refl)))
  visit_safe_lem (suc fuel) done (x ∷ xs) q m r second lt =
      let more : (x == head) ≡ false = ground (arith, r.distinct, has-append head done (x ∷ xs)) in
      let real : (first_of xs head == null) ≡ false = ground (
        arith,
        first_of-ne-null head xs (ground (arith, r.no_null, has-append null done (x ∷ xs))),
      ) in
      elim (Bool-cases (gone x)) [
        | inl del ↦
            let (m1, run, (r1, same, no_next, no_prev)) = list_del_lem m head x done xs r in
            let ((seen, m2), run2, (e, r2, same2)) =
              visit_safe_lem fuel done xs (m1.next (first_of xs head)) m1 r1
                (next-IsSecond m1 head done xs r1) (omega arith) in
            (
              (x ∷ seen, m2),
              rw (more, del, run, second, real, run2) refl,
              (ap (λ ys. x ∷ ys) e, rw del r2, SameOutside-trans head x done xs m m1 m2 same same2),
            )
        | inr keep ↦
            let r1 = subst (IsRing m head) (sym (append_assoc done (x ∷ []) xs)) r in
            let ((seen, m2), run2, (e, r2, same2)) =
              visit_safe_lem fuel (done ++ x ∷ []) xs (m.next (first_of xs head)) m r1
                (next-IsSecond m head (done ++ x ∷ []) xs r1) (omega arith) in
            (
              (x ∷ seen, m2),
              rw (more, keep, second, real, run2) refl,
              (
                ap (λ ys. x ∷ ys) e,
                rw keep (subst (IsRing m2 head) (append_assoc done (x ∷ []) (kept gone xs)) r2),
                subst (λ ys. SameOutside (head ∷ ys) m m2) (append_assoc done (x ∷ []) xs) same2,
              ),
            )
      ]

-- With more fuel than nodes, `list_for_each_safe` whose body deletes the nodes that a test picks
-- runs for each node of the list, once and in order, and stops; the list then holds exactly the
-- other nodes, in order, and no node outside it is touched.
pub list_for_each_safe_lem :
    (gone : Ptr → Bool) (fuel : ℕ) (m : Memory) (head : Ptr) (xs : List Ptr)
    → IsRing m head xs
    → length xs < fuel
    → Returns
        (list_for_each_safe fuel (delete_if gone) head m)
        λ out. (out.0 ≡ xs) × IsRing out.1 head (kept gone xs) × SameOutside (head ∷ xs) m out.1
unfolding list_for_each_safe
list_for_each_safe_lem gone fuel m head xs r lt =
    let first = next-first_of m head head xs r.links in
    let real : (head == null) ≡ false = ground (arith, r.no_null) in
    let real1 : (first_of xs head == null) ≡ false =
      ground (arith, first_of-ne-null head xs r.no_null) in
    let (out, run, facts) =
      visit_safe_lem gone head fuel [] xs (m.next (first_of xs head)) m r
        (next-IsSecond m head [] xs r) lt in
    (out, rw (real, first, real1) run, facts)
