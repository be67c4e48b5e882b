-- ===== src/Net/Poll/Table.antt =====
-- The table of descriptors between two rounds.
use coding_demo.Base.{
  ℕ, zero, suc, ◌+◌, ◌-◌, ◌≤◌, ◌<◌, ◌≡◌, ◌≢◌, refl, ap, sym, ◌∙◌, Bool-cases, inl, inr, Option,
  none, some, List, [], ◌∷◌, ltb, leb, if◌then◌else◌, length, length-set, replicate, set, get_elem?,
  get_elem?-set_ne, arith, ℤ, pos, negsuc, bind_inv, eq_of_some, ◌⊎◌,
}
use mathlib.Core.Path.{subst}
use native.Mathlib.Decide.{ℕ_discrete}
use coding_demo.Net.Poll.{
  Server, Action, Round, Accepted, client, interrupted, failed, Progress, max_line, fd_size,
  handle_read, serve_fd, serve_slot, serve_slots, serve_clients, free_slot, clients, add_client,
  accept_client, poll_round, poll_init,
}

abbrev pub IsFree : ℤ → Type 0
IsFree (pos fd) = ⊥
IsFree (negsuc k) = Unit

-- The table has its size, the listening socket stands first, and the slots behind `maxi` are free.
pub record IsValid (listenfd : ℕ) (s : Server) : Type 0 where
  pub size : length s.client_fds ≡ fd_size
  pub first : get_elem? s.client_fds 0 ≡ some (pos listenfd)
  pub bound : s.maxi < fd_size
  pub free : (j : ℕ) (fd : ℤ) → s.maxi < j → get_elem? s.client_fds j ≡ some fd → IsFree fd

free_slot_lem :
    (i j : ℕ) (fds : List ℤ) → free_slot i fds ≡ some j → (n : ℕ) × (j ≡ i + n) × (n < length fds)
unfolding free_slot
free_slot_lem i j [] h = cc
free_slot_lem i j (pos fd ∷ fds) h =
    let (n, e, lt) = free_slot_lem (i + 1) j fds h in (suc n, omega arith, omega arith)
free_slot_lem i j (negsuc k ∷ fds) h = (0, (let e = eq_of_some h in omega arith), omega arith)

length-clients : (fds : List ℤ) → length (clients fds) ≤ length fds - 1
length-clients [] = omega arith
length-clients (fd ∷ fds) = omega arith

-- A table with one more client, in a slot behind the first.
added-IsValid :
    (listenfd connfd j : ℕ) (s : Server)
    → 1 ≤ j
    → j < fd_size
    → IsValid listenfd s
    → IsValid listenfd (record {
      client_fds = set s.client_fds j (pos connfd);
      maxi = if ltb s.maxi j then j else s.maxi;
    })
added-IsValid listenfd connfd j s ge lt v = record {
  size = length-set s.client_fds j (pos connfd) ∙ v.size;
  first = get_elem?-set_ne s.client_fds (pos connfd) (λ e. omega arith) ∙ v.first;
  bound = let b = v.bound in ground arith;
  free = λ k fd above found.
      v.free k fd (below k above)
        (sym (get_elem?-set_ne s.client_fds (pos connfd) (apart k above)) ∙ found);
}
  where
    below : (k : ℕ) → (if ltb s.maxi j then j else s.maxi) < k → s.maxi < k
    below k h = ground arith

    apart : (k : ℕ) → (if ltb s.maxi j then j else s.maxi) < k → j ≢ k
    apart k h e = ground arith

pub add_client-IsValid :
    (listenfd connfd : ℕ) (s s' : Server)
    → add_client connfd s ≡ some s'
    → IsValid listenfd s
    → IsValid listenfd s'
unfolding add_client
add_client-IsValid listenfd connfd s s' e v =
    let (j, found, last) = bind_inv (free_slot 1 (clients s.client_fds)) _ e in
    let (n, at_n, lt) = free_slot_lem 1 j (clients s.client_fds) found in
    let short = length-clients s.client_fds in
    let size = v.size in
    subst (IsValid listenfd) (eq_of_some last)
      (added-IsValid listenfd connfd j s (omega arith) (omega arith) v)

-- Serving a slot leaves the table, or frees the slot of a client that has closed.
abbrev Frees : ℕ → Option (List ℕ) → Progress → Progress → Type 0
Frees i x t t' = (t'.0 ≡ t.0) ⊎ ((t'.0 ≡ set t.0 i (negsuc 0)) × (x ≡ some []))

handle_read-Frees :
    (i fd : ℕ) (x : Option (List ℕ)) (t t' : Progress)
    → handle_read i fd x t ≡ some t'
    → Frees i x t t'
unfolding handle_read
handle_read-Frees i fd none (fds, buf, actions) t' e = cc
handle_read-Frees i fd (some []) (fds, buf, actions) t' e =
    inr (ap (λ (t : Progress). t.0) (sym (eq_of_some e)), refl)
handle_read-Frees i fd (some (c ∷ bytes)) (fds, buf, actions) t' e =
    inl (ap (λ (t : Progress). t.0) (sym (eq_of_some e)))

serve_fd-Frees :
    (r : Round) (i : ℕ) (fd : ℤ) (t t' : Progress)
    → serve_fd r i fd t ≡ some t'
    → Frees i (r.received i) t t'
unfolding serve_fd
serve_fd-Frees r i (negsuc k) t t' e = inl (ap (λ (t : Progress). t.0) (sym (eq_of_some e)))
serve_fd-Frees r i (pos fd) t t' e = elim (Bool-cases (r.revents i)) [
  | inl ready ↦ handle_read-Frees i fd (r.received i) t t' (rw ready at e)
  | inr idle ↦ inl (ap (λ (t : Progress). t.0) (sym (eq_of_some (rw idle at e))))
]

abbrev with_fds : Server → Progress → Server
with_fds s t = record s { client_fds = t.0 }

set-value : (fds : List ℤ) (i : ℕ) (a b : ℤ) → get_elem? (set fds i a) i ≡ some b → a ≡ b
set-value [] i a b h = cc
set-value (fd ∷ fds) zero a b h = eq_of_some h
set-value (fd ∷ fds) (suc i) a b h = set-value fds i a b h

freed-IsValid :
    (listenfd i : ℕ) (s : Server)
    → i ≢ 0
    → IsValid listenfd s
    → IsValid listenfd (record s { client_fds = set s.client_fds i (negsuc 0) })
freed-IsValid listenfd i s ne v = record {
  size = length-set s.client_fds i (negsuc 0) ∙ v.size;
  first = get_elem?-set_ne s.client_fds (negsuc 0) ne ∙ v.first;
  bound = v.bound;
  free = free_still;
}
  where
    free_still :
        (k : ℕ) (fd : ℤ)
        → s.maxi < k
        → get_elem? (set s.client_fds i (negsuc 0)) k ≡ some fd
        → IsFree fd
    free_still k fd above found = elim (ℕ_discrete i k) [
      | no other ↦ v.free k fd above (sym (get_elem?-set_ne s.client_fds (negsuc 0) other) ∙ found)
      | yes same ↦
          subst IsFree
            (set-value s.client_fds i (negsuc 0) fd
              (subst (λ k. get_elem? (set s.client_fds i (negsuc 0)) k ≡ some fd) (sym same) found))
            tt
    ]

serve_slots-IsValid :
    (count : ℕ) (r : Round) (i listenfd : ℕ) (s : Server) (t t' : Progress)
    → r.received 0 ≡ none
    → serve_slots count r i t ≡ some t'
    → IsValid listenfd (with_fds s t)
    → IsValid listenfd (with_fds s t')
unfolding serve_slots serve_slot
serve_slots-IsValid zero r i listenfd s t t' deaf e v =
    subst (λ t. IsValid listenfd (with_fds s t)) (eq_of_some e) v
serve_slots-IsValid (suc count) r i listenfd s t t' deaf e v =
    let (t1, first, rest) = bind_inv (serve_slot r i t) _ e in
    let (fd, found, one) = bind_inv (get_elem? t.0 i) _ first in
    serve_slots-IsValid count r (i + 1) listenfd s t1 t' deaf rest
      (step t1 (serve_fd-Frees r i fd t t1 one))
  where
    not_closed : ¬ (◌≡◌ {A = Option (List ℕ)} none (some []))
    not_closed h = cc

    step : (t1 : Progress) → Frees i (r.received i) t t1 → IsValid listenfd (with_fds s t1)
    step t1 (inl same) =
        subst (λ fds. IsValid listenfd (record s { client_fds = fds })) (sym same) v
    step t1 (inr (freed, gone)) =
        subst (λ fds. IsValid listenfd (record s { client_fds = fds })) (sym freed)
          (freed-IsValid listenfd i (with_fds s t)
            (λ zero_i. not_closed (sym deaf ∙ ap r.received (sym zero_i) ∙ gone)) v)

serve_clients-IsValid :
    (r : Round) (listenfd : ℕ) (s s' : Server) (actions : List Action)
    → r.received 0 ≡ none
    → serve_clients r s ≡ some (s', actions)
    → IsValid listenfd s
    → IsValid listenfd s'
unfolding serve_clients
serve_clients-IsValid r listenfd s s' actions deaf e v =
    let (t, run, last) =
      bind_inv (serve_slots (s.maxi + 1) r 0 (s.client_fds, replicate max_line 0, [])) _ e in
    let same : with_fds s t ≡ s' = ap (λ (x : Server × List Action). x.0) (eq_of_some last) in
    subst (IsValid listenfd) same (
      serve_slots-IsValid (s.maxi + 1) r 0 listenfd s (s.client_fds, replicate max_line 0, []) t
        deaf run v)

served-IsValid :
    (r : Round) (listenfd : ℕ) (s s' : Server) (actions : List Action)
    → r.received 0 ≡ none
    → (if leb r.nready 1 then some (s, []) else serve_clients r s) ≡ some (s', actions)
    → IsValid listenfd s
    → IsValid listenfd s'
served-IsValid r listenfd s s' actions deaf e v = elim (Bool-cases (leb r.nready 1)) [
  | inl only ↦
      subst (IsValid listenfd) (ap (λ (x : Server × List Action). x.0) (eq_of_some (rw only at e)))
        v
  | inr more ↦ serve_clients-IsValid r listenfd s s' actions deaf (rw more at e) v
]

accept_client-IsValid :
    (a : Accepted) (r : Round) (listenfd : ℕ) (s s' : Server) (actions : List Action)
    → r.received 0 ≡ none
    → accept_client a r s ≡ some (s', actions)
    → IsValid listenfd s
    → IsValid listenfd s'
unfolding accept_client
accept_client-IsValid failed r listenfd s s' actions deaf e v = cc
accept_client-IsValid interrupted r listenfd s s' actions deaf e v =
    subst (IsValid listenfd) (ap (λ (x : Server × List Action). x.0) (eq_of_some e)) v
accept_client-IsValid (client connfd) r listenfd s s' actions deaf e v =
    let (t, added, rest) = bind_inv (add_client connfd s) _ e in
    served-IsValid r listenfd t s' actions deaf rest
      (add_client-IsValid listenfd connfd s t added v)

pub poll_init-IsValid : (listenfd : ℕ) → IsValid listenfd (poll_init listenfd)
unfolding poll_init
poll_init-IsValid listenfd = record {
  size = refl;
  first = refl;
  bound = omega arith;
  free = free_rest;
}
  where
    free_tail : (n j : ℕ) (fd : ℤ) → get_elem? (replicate n (negsuc 0)) j ≡ some fd → IsFree fd
    free_tail zero j fd h = cc
    free_tail (suc n) zero fd h = subst IsFree (eq_of_some h) tt
    free_tail (suc n) (suc j) fd h = free_tail n j fd h

    free_rest :
        (j : ℕ) (fd : ℤ)
        → 0 < j
        → get_elem? (pos listenfd ∷ replicate 999 (negsuc 0)) j ≡ some fd
        → IsFree fd
    free_rest zero fd above h = absurd (omega arith)
    free_rest (suc j) fd above h = free_tail 999 j fd h

-- A round of the server that ends, with a read of the listening socket that fails, as it does by
-- its documentation, leaves the table valid: it has its size, the listening socket stands first,
-- `maxi` is inside it, and the slots behind `maxi` are free.
pub poll_round-IsValid :
    (listenfd : ℕ) (r : Round) (s s' : Server) (actions : List Action)
    → r.received 0 ≡ none
    → poll_round r s ≡ some (s', actions)
    → IsValid listenfd s
    → IsValid listenfd s'
unfolding poll_round
poll_round-IsValid listenfd r s s' actions deaf e v = elim (Bool-cases (r.revents 0)) [
  | inr quiet ↦ serve_clients-IsValid r listenfd s s' actions deaf (rw quiet at e) v
  | inl knock ↦ accept_client-IsValid r.accepted r listenfd s s' actions deaf (rw knock at e) v
]
