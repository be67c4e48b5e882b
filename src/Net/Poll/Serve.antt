-- ===== src/Net/Poll/Serve.antt =====
-- The loop over the clients, slot by slot.
use coding_demo.Base.{
  ℕ, ◌+◌, ◌≤◌, ◌≡◌, refl, ap, sym, ◌∙◌, Bool-cases, inl, inr, true, Option, none, some, List, [],
  ◌∷◌, ◌++◌, if◌then◌else◌, length, length-append, replicate, length-replicate, set, get_elem?,
  arith, ℤ, pos, negsuc, Returns,
}
use mathlib.Core.List.{append_assoc, append-nil}
use coding_demo.Libc.Buffer.{take, take-all, take-append, write_at, write_at-zero, length-write_at}
use coding_demo.Net.Poll.{
  Server, Action, printed, sent, closed, Round, Progress, max_line, handle_read, serve_fd,
  serve_slot, serve_slots, serve_clients,
}

-- What a `read` leaves in a slot, and what goes out.
abbrev pub answer : ℕ → Option (List ℕ) → ℤ × List Action
answer fd none = (pos fd, [])
answer fd (some []) = (negsuc 0, closed fd ∷ [])
answer fd (some (c ∷ bytes)) = (pos fd, printed (c ∷ bytes) ∷ sent fd (c ∷ bytes) ∷ [])

abbrev pub served_fd : Round → ℕ → ℤ → ℤ × List Action
served_fd r i (negsuc k) = (negsuc k, [])
served_fd r i (pos fd) = if r.revents i then answer fd (r.received i) else (pos fd, [])

-- The slots from the `i`-th on, and what goes out, each slot by itself.
abbrev pub served : Round → ℕ → List ℤ → List ℤ × List Action
served r i [] = ([], [])
served r i (fd ∷ fds) = (
  (served_fd r i fd).0 ∷ (served r (i + 1) fds).0,
  (served_fd r i fd).1 ++ (served r (i + 1) fds).1,
)

-- No `read` fails, and none gives more than it is asked for.
abbrev pub IsRead : Option (List ℕ) → Type 0
IsRead none = ⊥
IsRead (some bytes) = length bytes ≤ 1024

get_elem?-middle : (xs ys : List ℤ) (x : ℤ) → get_elem? (xs ++ x ∷ ys) (length xs) ≡ some x
get_elem?-middle [] ys x = refl
get_elem?-middle (y ∷ xs) ys x = get_elem?-middle xs ys x

set-middle : (xs ys : List ℤ) (x y : ℤ) → set (xs ++ x ∷ ys) (length xs) y ≡ xs ++ y ∷ ys
set-middle [] ys x y = refl
set-middle (z ∷ xs) ys x y = ap (λ r. z ∷ r) (set-middle xs ys x y)

-- What has been read is what goes out.
pub echoed :
    (buf bytes : List ℕ)
    → length buf ≡ 1024
    → length bytes ≤ 1024
    → take (length bytes) (write_at buf 0 (take 1024 bytes)) ≡ bytes
echoed buf bytes size fits =
    rw (take-all 1024 bytes fits, write_at-zero buf bytes (omega arith))
      (take-append bytes _ (length bytes) refl)

-- The state after a slot: the slots before it, the slot, the ones behind it.
abbrev After : Round → List ℤ → ℤ → List ℤ → List Action → Progress → Type 0
After r pre fd fds actions t =
    (t.0 ≡ pre ++ (served_fd r (length pre) fd).0 ∷ fds)
    × (length t.1 ≡ 1024)
    × (t.2 ≡ actions ++ (served_fd r (length pre) fd).1)

serve_fd_lem :
    (r : Round) (pre fds : List ℤ) (fd : ℤ) (buf : List ℕ) (actions : List Action)
    → ((i : ℕ) → r.revents i ≡ true → IsRead (r.received i))
    → length buf ≡ 1024
    → Returns
        (serve_fd r (length pre) fd (pre ++ fd ∷ fds, buf, actions))
        (After r pre fd fds actions)
unfolding serve_fd
serve_fd_lem r pre fds (negsuc k) buf actions reads size =
    (_, refl, (refl, size, sym (append-nil actions)))
serve_fd_lem r pre fds (pos fd) buf actions reads size =
    elim (Bool-cases (r.revents (length pre))) [
      | inr idle ↦ rw idle (_, refl, (refl, size, sym (append-nil actions)))
      | inl ready ↦ rw ready (cases (r.received (length pre)) (reads (length pre) ready))
    ]
  where
    cases :
        (x : Option (List ℕ))
        → IsRead x
        → Returns (handle_read (length pre) fd x (pre ++ pos fd ∷ fds, buf, actions)) λ t.
          (t.0 ≡ pre ++ (answer fd x).0 ∷ fds)
          × (length t.1 ≡ 1024)
          × (t.2 ≡ actions ++ (answer fd x).1)
    cases none bad = absurd bad
    cases (some []) ok = (_, refl, (set-middle pre fds (pos fd) (negsuc 0), size, refl))
    cases (some (c ∷ bytes)) ok =
        let e = echoed buf (c ∷ bytes) size ok in
        (
          _,
          refl,
          (
            refl,
            length-write_at buf 0 (take 1024 (c ∷ bytes)) ∙ size,
            ap (λ out. actions ++ printed out ∷ sent fd out ∷ []) e,
          ),
        )

serve_slots_lem :
    (r : Round) (pre fds back : List ℤ) (buf : List ℕ) (actions : List Action)
    → ((i : ℕ) → r.revents i ≡ true → IsRead (r.received i))
    → length buf ≡ 1024
    → Returns (serve_slots (length fds) r (length pre) (pre ++ (fds ++ back), buf, actions)) λ t.
      (t.0 ≡ pre ++ ((served r (length pre) fds).0 ++ back))
      × (t.2 ≡ actions ++ (served r (length pre) fds).1)
unfolding serve_slots serve_slot
serve_slots_lem r pre [] back buf actions reads size = (_, refl, (refl, sym (append-nil actions)))
serve_slots_lem r pre (fd ∷ fds) back buf actions reads size =
    let (t, run1, (table, size1, out)) =
      serve_fd_lem r pre (fds ++ back) fd buf actions reads size in
    let fd' = (served_fd r (length pre) fd).0 in
    let n : length (pre ++ fd' ∷ []) ≡ length pre + 1 = length-append pre (fd' ∷ []) in
    let grown : t.0 ≡ (pre ++ fd' ∷ []) ++ (fds ++ back) =
      table ∙ sym (append_assoc pre (fd' ∷ []) (fds ++ back)) in
    let (t', run2, (table', out')) =
      serve_slots_lem r (pre ++ fd' ∷ []) fds back t.1 t.2 reads size1 in
    let again : serve_slots (length fds) r (length pre + 1) t ≡ some t' =
      (λ i. serve_slots (length fds) r (sym n i) (grown i, t.1, t.2)) ∙ run2 in
    (
      t',
      rw (get_elem?-middle pre (fds ++ back) fd, run1) again,
      (
        table'
            ∙ append_assoc pre (fd' ∷ []) _
            ∙ (λ i. pre ++ fd' ∷ ((served r (n i) fds).0 ++ back)),
        out' ∙ (λ i. out i ++ (served r (n i) fds).1) ∙ append_assoc actions _ _,
      ),
    )

-- Where no read of a ready slot fails or gives more than the buffer holds, the slots up to `maxi`
-- are served each by itself, whatever the buffer held: a client that has closed leaves its slot
-- free and is closed, one that has sent bytes gets exactly these, in the order of the slots, and
-- the slots behind `maxi` stay as they are.
pub serve_clients_lem :
    (r : Round) (s : Server) (fds back : List ℤ)
    → s.client_fds ≡ fds ++ back
    → length fds ≡ s.maxi + 1
    → ((i : ℕ) → r.revents i ≡ true → IsRead (r.received i))
    → serve_clients r s
      ≡ some (record s { client_fds = (served r 0 fds).0 ++ back }, (served r 0 fds).1)
unfolding serve_clients
serve_clients_lem r s fds back table count reads =
    let (t, run, (e, out)) =
      serve_slots_lem r [] fds back (replicate max_line 0) [] reads
        (length-replicate {A = ℕ} max_line 0) in
    rw (table, ← count, run, e, out)
