-- ===== src/Net/Poll/Talk.antt =====
-- What one client gets over many rounds, beside the others.
use coding_demo.Base.{
  ℕ, zero, suc, ◌+◌, ◌<◌, ◌≡◌, refl, ap, sym, ◌∙◌, Bool-cases, inl, inr, true, false, Option, none,
  some, List, [], ◌∷◌, ◌++◌, ◌==◌, if◌then◌else◌, length, arith, ℤ, pos, negsuc, Returns, All,
}
use mathlib.Core.Path.{subst}
use mathlib.Core.List.{append_assoc, append-nil}
use coding_demo.Net.Poll.{Server, Action, printed, sent, closed, Round, poll_round, poll_loop}
use coding_demo.Net.Poll.Serve.{answer, served_fd, served, IsRead, serve_clients_lem}

-- The bytes that go to a descriptor.
abbrev pub bytes_to : ℕ → List Action → List ℕ
bytes_to fd [] = []
bytes_to fd (printed out ∷ actions) = bytes_to fd actions
bytes_to fd (sent other out ∷ actions) = (if other == fd then out else []) ++ bytes_to fd actions
bytes_to fd (closed other ∷ actions) = bytes_to fd actions

-- The bytes that a round, and that all rounds bring for a slot.
abbrev pub bytes_of : Option (List ℕ) → List ℕ
bytes_of none = []
bytes_of (some bytes) = bytes

abbrev pub got : ℕ → Round → List ℕ
got i r = if r.revents i then bytes_of (r.received i) else []

abbrev pub gathered : ℕ → List Round → List ℕ
gathered i [] = []
gathered i (r ∷ rs) = got i r ++ gathered i rs

abbrev pub IsOther : ℕ → ℤ → Type 0
IsOther fd (pos other) = (other == fd) ≡ false
IsOther fd (negsuc k) = Unit

-- The descriptor stands in the slot `i` and in no other.
abbrev pub IsSlot : ℕ → ℕ → List ℤ → Type 0
IsSlot fd i [] = ⊥
IsSlot fd zero (x ∷ fds) = (x ≡ pos fd) × All (IsOther fd) fds
IsSlot fd (suc i) (x ∷ fds) = IsOther fd x × IsSlot fd i fds

-- The slots up to `maxi` have the descriptor once, in the slot `i`.
pub record Serves (fd i : ℕ) (s : Server) : Type 0 where
  pub front : List ℤ
  pub back : List ℤ
  pub table : s.client_fds ≡ front ++ back
  pub count : length front ≡ s.maxi + 1
  pub slot : IsSlot fd i front

-- No new client, no read that fails or gives too much, and the client of the slot does not leave.
pub record IsTalk (i : ℕ) (r : Round) : Type 0 where
  pub quiet : r.revents 0 ≡ false
  pub reads : (j : ℕ) → r.revents j ≡ true → IsRead (r.received j)
  pub stays : r.revents i ≡ true → 0 < length (bytes_of (r.received i))

bytes_to-append :
    (fd : ℕ) (xs ys : List Action) → bytes_to fd (xs ++ ys) ≡ bytes_to fd xs ++ bytes_to fd ys
bytes_to-append fd [] ys = refl
bytes_to-append fd (printed out ∷ xs) ys = bytes_to-append fd xs ys
bytes_to-append fd (sent other out ∷ xs) ys =
    ap (λ r. (if other == fd then out else []) ++ r) (bytes_to-append fd xs ys)
    ∙ sym (append_assoc (if other == fd then out else []) (bytes_to fd xs) (bytes_to fd ys))
bytes_to-append fd (closed other ∷ xs) ys = bytes_to-append fd xs ys

answer-IsOther :
    (fd other : ℕ) (x : Option (List ℕ))
    → (other == fd) ≡ false
    → IsOther fd (answer other x).0 × (bytes_to fd (answer other x).1 ≡ [])
answer-IsOther fd other none h = (h, refl)
answer-IsOther fd other (some []) h = (tt, refl)
answer-IsOther fd other (some (c ∷ bytes)) h = (h, rw h refl)

served_fd-IsOther :
    (r : Round) (fd i : ℕ) (x : ℤ)
    → IsOther fd x
    → IsOther fd (served_fd r i x).0 × (bytes_to fd (served_fd r i x).1 ≡ [])
served_fd-IsOther r fd i (negsuc k) h = (tt, refl)
served_fd-IsOther r fd i (pos other) h = elim (Bool-cases (r.revents i)) [
  | inl ready ↦ rw ready (answer-IsOther fd other (r.received i) h)
  | inr idle ↦ rw idle (h, refl)
]

served-IsOther :
    (r : Round) (fd i : ℕ) (fds : List ℤ)
    → All (IsOther fd) fds
    → All (IsOther fd) (served r i fds).0 × (bytes_to fd (served r i fds).1 ≡ [])
served-IsOther r fd i [] h = (tt, refl)
served-IsOther r fd i (x ∷ fds) (h, hs) =
    let (one, none_here) = served_fd-IsOther r fd i x h in
    let (rest, none_there) = served-IsOther r fd (i + 1) fds hs in
    ((one, rest), bytes_to-append fd (served_fd r i x).1 _ ∙ rw (none_here, none_there) refl)

answer-own :
    (fd : ℕ) (x : Option (List ℕ))
    → 0 < length (bytes_of x)
    → ((answer fd x).0 ≡ pos fd) × (bytes_to fd (answer fd x).1 ≡ bytes_of x)
answer-own fd none h = absurd (omega arith)
answer-own fd (some []) h = absurd (omega arith)
answer-own fd (some (c ∷ bytes)) h =
    let own : (fd == fd) ≡ true = ground arith in (refl, rw (own, append-nil bytes) refl)

served_fd-own :
    (r : Round) (fd i : ℕ)
    → IsTalk i r
    → ((served_fd r i (pos fd)).0 ≡ pos fd) × (bytes_to fd (served_fd r i (pos fd)).1 ≡ got i r)
served_fd-own r fd i h = elim (Bool-cases (r.revents i)) [
  | inl ready ↦ rw ready (answer-own fd (r.received i) (h.stays ready))
  | inr idle ↦ rw idle (refl, refl)
]

length-served : (r : Round) (i : ℕ) (fds : List ℤ) → length (served r i fds).0 ≡ length fds
length-served r i [] = refl
length-served r i (x ∷ fds) = ap suc (length-served r (i + 1) fds)

served-IsSlot :
    (r : Round) (fd at i n : ℕ) (fds : List ℤ)
    → at + i ≡ n
    → IsTalk n r
    → IsSlot fd i fds
    → IsSlot fd i (served r at fds).0 × (bytes_to fd (served r at fds).1 ≡ got n r)
served-IsSlot r fd at i n [] e h slot = absurd slot
served-IsSlot r fd at zero n (x ∷ fds) e h (own, others) =
    let here : n ≡ at = omega arith in
    let (same, bytes) = served_fd-own r fd at (subst (λ k. IsTalk k r) here h) in
    let (rest, none_there) = served-IsOther r fd (at + 1) fds others in
    (
      (ap (λ x. (served_fd r at x).0) own ∙ same, rest),
      bytes_to-append fd (served_fd r at x).1 _
          ∙ ap (λ y. bytes_to fd (served_fd r at y).1 ++ bytes_to fd (served r (at + 1) fds).1) own
          ∙ rw (none_there, bytes, append-nil (got at r)) (ap (λ k. got k r) (sym here)),
    )
served-IsSlot r fd at (suc i) n (x ∷ fds) e h (other, slot) =
    let (still, none_here) = served_fd-IsOther r fd at x other in
    let (there, bytes) = served-IsSlot r fd (at + 1) i n fds (omega arith) h slot in
    ((still, there), bytes_to-append fd (served_fd r at x).1 _ ∙ rw (none_here, bytes) refl)

poll_round-Serves :
    (fd i : ℕ) (r : Round) (s : Server)
    → IsTalk i r
    → Serves fd i s
    → Returns (poll_round r s) λ t. Serves fd i t.0 × (bytes_to fd t.1 ≡ got i r)
unfolding poll_round
poll_round-Serves fd i r s h v =
    let (slot, bytes) = served-IsSlot r fd 0 i i v.front (omega arith) h v.slot in
    (
      (record s { client_fds = (served r 0 v.front).0 ++ v.back }, (served r 0 v.front).1),
      rw h.quiet (serve_clients_lem r s v.front v.back v.table v.count h.reads),
      (
        record {
          front = (served r 0 v.front).0;
          back = v.back;
          table = refl;
          count = length-served r 0 v.front ∙ v.count;
          slot = slot;
        },
        bytes,
      ),
    )

-- Where a descriptor stands in the slot `i` alone, and in each round no new client comes, no read
-- of a ready slot fails or gives more than the buffer holds, and this client does not leave, the
-- server runs through all the rounds, whatever the other clients do, the descriptor is in its slot
-- afterwards, and exactly the bytes that came from its slot have gone to it, in order.
pub poll_loop_lem :
    (fd i : ℕ) (rs : List Round) (s : Server)
    → Serves fd i s
    → All (IsTalk i) rs
    → Returns (poll_loop rs s) λ t. Serves fd i t.0 × (bytes_to fd t.1 ≡ gathered i rs)
unfolding poll_loop
poll_loop_lem fd i [] s v hs = (_, refl, (v, refl))
poll_loop_lem fd i (r ∷ rs) s v (h, hs) =
    let (t, run, (v1, bytes)) = poll_round-Serves fd i r s h v in
    let (u, again, (v2, more)) = poll_loop_lem fd i rs t.0 v1 hs in
    (
      (u.0, t.1 ++ u.1),
      rw (run, again) refl,
      (v2, bytes_to-append fd t.1 u.1 ∙ rw (bytes, more) refl),
    )
