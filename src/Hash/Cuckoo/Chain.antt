-- ===== src/Hash/Cuckoo/Chain.antt =====
-- `reHash` as a whole: it returns, and either it has freed the slot or it has changed nothing.
use coding_demo.Base.{
  ℕ, zero, suc, ◌<◌, ◌≡◌, refl, ap, sym, ◌∙◌, ◌≢◌, ◌⊎◌, inl, inr, Bool, Bool-cases, true, false,
  some, Option, arith, if◌then◌else◌, pos, ◌=ℤ◌, =ℤ_iff, Returns,
}
use mathlib.Core.Path.{subst}
use coding_demo.Hash.Cuckoo.{
  Entry, Table, Side, one, two, relocate, re_hash, hash_func1, hash_func2, read,
}
use coding_demo.Hash.Cuckoo.Slots.{Slot, at, home, flip, home-lt, read-at, HasKey, IsValid, flip-ne}
use coding_demo.Hash.Cuckoo.Evict.{
  other, Rank, Freed, empty-Freed, moved-Freed, pos-injective, HasKey-unique,
}

-- The result of moving what stands in `s` in at most `deeps` moves.
abbrev pub Moved : ℕ → Table → Slot → Bool × Table → Type 0
Moved deeps t s r =
    ((r.0 ≡ true) × ((m : ℕ) × Rank t s m × Freed t s m r.1))
    ⊎ ((r ≡ (false, t)) × ((m : ℕ) → Rank t s m → deeps < m))

pub hash_func1-pos : (t : Table) (k : ℕ) → hash_func1 t (pos k) ≡ pos (home t.n_count one k)
unfolding hash_func1
hash_func1-pos t k = refl

pub hash_func2-pos : (t : Table) (k : ℕ) → hash_func2 t (pos k) ≡ pos (home t.n_count two k)
unfolding hash_func2
hash_func2-pos t k = refl

relocate_lem :
    (deeps : ℕ) (move : Table → Entry → Option (Bool × Table)) (t : Table) (v : IsValid t)
    (s : Slot) (k : ℕ) (h : HasKey t s k)
    → ((q : Slot) (j : ℕ) → HasKey t q j → Returns (move t (at t q)) (Moved deeps t q))
    → Returns
        (relocate move
          (flip s.0)
          (pos (home t.n_count (flip s.0) k))
          (at t (other t s k))
          (at t s)
          t)
        (Moved (suc deeps) t s)
unfolding relocate
relocate_lem deeps move t v s k h step = elim (Bool-cases ((at t (other t s k)).key =ℤ pos 0)) [
  | inl free ↦
      let r = (=ℤ_iff _ _).0 free in
      (
        _,
        rw free,
        inl (
          refl,
          (suc 0, (k, h, r), moved-Freed t t s k 0 v h r (empty-Freed t (other t s k) v r)),
        ),
      )
  | inr taken ↦
      let (j, g) = v.natural (other t s k) in
      let full : HasKey t (other t s k) j = (g, nonzero j g taken) in
      let (r, run, done) = step (other t s k) j full in chain r taken run done
]
  where
    longer : ((m : ℕ) → Rank t (other t s k) m → deeps < m) → (m : ℕ) → Rank t s m → suc deeps < m
    longer long zero q = absurd (h.1 (pos-injective (sym h.0 ∙ q)))
    longer long (suc m) (j, g, q) =
        let same = HasKey-unique t s j k g h in
        let lt = long m (subst (λ k. Rank t (other t s k) m) same q) in omega arith

    chain :
        (r : Bool × Table)
        → ((at t (other t s k)).key =ℤ pos 0) ≡ false
        → move t (at t (other t s k)) ≡ some r
        → Moved deeps t (other t s k) r
        → Returns
            (relocate move
              (flip s.0)
              (pos (home t.n_count (flip s.0) k))
              (at t (other t s k))
              (at t s)
              t)
            (Moved (suc deeps) t s)
    chain (b, t') taken run (inl (yes_b, (m, r, f))) =
        let yes_b' : b ≡ true = yes_b in
        (_, rw (taken, run, yes_b'), inl (refl, (suc m, (k, h, r), moved-Freed t t' s k m v h r f)))
    chain (b, t') taken run (inr (same, long)) =
        let no_b : b ≡ false = ap (λ x. x.0) same in
        let same_t : t' ≡ t = ap (λ x. x.1) same in
        (_, rw (taken, run, no_b, same_t), inr (refl, longer long))

    nonzero :
        (j : ℕ)
        → (at t (other t s k)).key ≡ pos j
        → ((at t (other t s k)).key =ℤ pos 0) ≡ false
        → j ≢ 0
    nonzero j g taken e =
        let test = (=ℤ_iff (at t (other t s k)).key (pos 0)).1 (g ∙ ap pos e) in cc

re_hash-eq :
    (deeps : ℕ) (t : Table) (e first second : Entry)
    → read t.table1 (hash_func1 t e.key) ≡ some first
    → read t.table2 (hash_func2 t e.key) ≡ some second
    → re_hash (suc deeps) t e ≡ (
        if e.key =ℤ first.key
        then relocate (re_hash deeps) two (hash_func2 t e.key) second e t
        else if e.key =ℤ second.key
        then relocate (re_hash deeps) one (hash_func1 t e.key) first e t
        else some (false, t))
unfolding re_hash
re_hash-eq deeps t e first second f s = rw (f, s)

-- The branch that `reHash` takes is that of the table where its key stands.
re_hash-suc :
    (deeps : ℕ) (t : Table) (v : IsValid t) (s : Slot) (k : ℕ) (h : HasKey t s k)
    → re_hash (suc deeps) t (at t s)
      ≡ relocate
          (re_hash deeps)
          (flip s.0)
          (pos (home t.n_count (flip s.0) k))
          (at t (other t s k))
          (at t s)
          t
re_hash-suc deeps t v (side, i) k h =
    let first = at t (one, home t.n_count one k) in
    let second = at t (two, home t.n_count two k) in
    let e = at t (side, i) in
    let fst : read t.table1 (hash_func1 t e.key) ≡ some first =
      rw (h.0, hash_func1-pos t k)
        (read-at t one (home t.n_count one k) v.sized (home-lt t.n_count k one v.sized.positive)) in
    let snd : read t.table2 (hash_func2 t e.key) ≡ some second =
      rw (h.0, hash_func2-pos t k)
        (read-at t two (home t.n_count two k) v.sized (home-lt t.n_count k two v.sized.positive)) in
    re_hash-eq deeps t e first second fst snd ∙ branch side i h
  where
    branch :
        (side : Side) (i : ℕ) (h : HasKey t (side, i) k)
        → (if (at t (side, i)).key =ℤ (at t (one, home t.n_count one k)).key
            then relocate
                (re_hash deeps)
                two
                (hash_func2 t (at t (side, i)).key)
                (at t (two, home t.n_count two k))
                (at t (side, i))
                t
            else if (at t (side, i)).key =ℤ (at t (two, home t.n_count two k)).key
            then relocate
                (re_hash deeps)
                one
                (hash_func1 t (at t (side, i)).key)
                (at t (one, home t.n_count one k))
                (at t (side, i))
                t
            else some (false, t))
          ≡ relocate
              (re_hash deeps)
              (flip side)
              (pos (home t.n_count (flip side) k))
              (at t (other t (side, i) k))
              (at t (side, i))
              t
    branch one i h =
        let same : (at t (one, home t.n_count one k)).key ≡ pos k =
          ap (λ j. (at t (one, j)).key) (sym (v.placed (one, i) k h)) ∙ h.0 in
        let test : ((at t (one, i)).key =ℤ (at t (one, home t.n_count one k)).key) ≡ true =
          (=ℤ_iff _ _).1 (h.0 ∙ sym same) in
        rw (test, h.0, hash_func2-pos t k)
    branch two i h =
        let same : (at t (two, home t.n_count two k)).key ≡ pos k =
          ap (λ j. (at t (two, j)).key) (sym (v.placed (two, i) k h)) ∙ h.0 in
        let test : ((at t (two, i)).key =ℤ (at t (two, home t.n_count two k)).key) ≡ true =
          (=ℤ_iff _ _).1 (h.0 ∙ sym same) in
        elim (Bool-cases ((at t (two, i)).key =ℤ (at t (one, home t.n_count one k)).key)) [
          | inl eq ↦
              let g : HasKey t (one, home t.n_count one k) k =
                (sym ((=ℤ_iff _ _).0 eq) ∙ h.0, h.1) in
              absurd (flip-ne one _ i (v.unique (one, home t.n_count one k) (two, i) k g h))
          | inr ne ↦ rw (ne, test, h.0, hash_func1-pos t k)
        ]

some_move : (t : Table) (s : Slot) (k : ℕ) → HasKey t s k → (m : ℕ) → Rank t s m → 0 < m
some_move t s k h zero q = absurd (h.1 (pos-injective (sym h.0 ∙ q)))
some_move t s k h (suc m) q = omega arith

pub re_hash_lem :
    (deeps : ℕ) (t : Table) (v : IsValid t) (s : Slot) (k : ℕ) (h : HasKey t s k)
    → Returns (re_hash deeps t (at t s)) (Moved deeps t s)
unfolding re_hash
re_hash_lem zero t v s k h = (_, refl, inr (refl, some_move t s k h))
re_hash_lem (suc deeps) t v (side, i) k h =
    let (r, run, done) =
      relocate_lem deeps (re_hash deeps) t v (side, i) k h (λ q j g. re_hash_lem deeps t v q j g) in
    (r, re_hash-suc deeps t v (side, i) k h ∙ run, done)
