-- ===== src/Process/Collect.antt =====
-- Where `collect_cpu_time` puts its readings, and what the report makes of them.
use coding_demo.Base.{
  ltb, true, ℕ, suc, ◌+◌, ◌≤◌, ◌<◌, ◌≡◌, refl, ap, ◌∙◌, ◌≢◌, ◌⊎◌, inl, inr, some, List, [], ◌∷◌,
  ◌++◌, arith, length, get_elem?, get_elem?-set_self, get_elem?-set_ne, set, length-set, Returns, ℤ,
}
use coding_demo.Process.{
  fits_comm, task_comm_len, Machine, ProcessState, CpuUsage, prefix_stat_file, store, read_sys_prof,
  collect_threads, collect_cpu_time,
}
use coding_demo.Process.Path.{
  process_path, thread_path, collect_single_process_info_lem, collect_thread_info_lem,
}

abbrev pub process_file : ℤ → List ℕ
process_file pid = process_path pid ++ prefix_stat_file

abbrev pub thread_file : ℤ → ℤ → List ℕ
thread_file pid tid = thread_path pid tid ++ prefix_stat_file

-- Every file can be read: the n-th reading of a path is `read n path`, with a name that fits in its
-- array.
pub record IsReadable (m : Machine) (read : ℕ → List ℕ → ProcessState) (usage : ℕ → CpuUsage)
    : Type 0 where
  pub stat_ok : (c : ℕ) (path : List ℕ) → m.stat c path ≡ some (read c path)
  pub comm_ok : (c : ℕ) (path : List ℕ) → length (read c path).comm < task_comm_len
  pub usage_ok : (c : ℕ) → m.usage c ≡ some (usage c)

read_ok :
    (m : Machine) (read : ℕ → List ℕ → ProcessState) (usage : ℕ → CpuUsage)
    → IsReadable m read usage
    → (c : ℕ) (path : List ℕ) → fits_comm (m.stat c path) ≡ some (some (read c path))
read_ok m read usage v c path =
    let short = v.comm_ok c path in
    let fits : ltb (length (read c path).comm) task_comm_len ≡ true = ground arith in
    ap fits_comm (v.stat_ok c path) ∙ rw fits refl

-- The readings of the threads `ids`, begun at time `clock`, stand in `ps` from `i` on.
abbrev pub HasReadings :
    (ℕ → List ℕ → ProcessState) → ℕ → ℤ → List ℤ → ℕ → List ProcessState → Type 0
HasReadings read clock pid [] i ps = Unit
HasReadings read clock pid (tid ∷ ids) i ps =
    (get_elem? ps i ≡ some (read clock (thread_file pid tid)))
    × HasReadings read (clock + 1) pid ids (i + 1) ps

-- The slots outside of [i, i + n) are as they were.
abbrev pub SameElsewhere : ℕ → ℕ → List ProcessState → List ProcessState → Type 0
SameElsewhere i n ps ps' = (j : ℕ) → (j < i) ⊎ (i + n ≤ j) → get_elem? ps' j ≡ get_elem? ps j

store_lem :
    (ps : List ProcessState) (i : ℕ) (x : ProcessState)
    → i < length ps
    → store ps i x ≡ some (set ps i x)
unfolding store
store_lem ps i x h = ground arith

outside : (i n j : ℕ) → (j < i) ⊎ (i + suc n ≤ j) → (j < i + 1) ⊎ (i + 1 + n ≤ j)
outside i n j (inl h) = inl (omega arith)
outside i n j (inr h) = inr (omega arith)

apart : (i n j : ℕ) → (j < i) ⊎ (i + suc n ≤ j) → i ≢ j
apart i n j (inl h) e = omega arith
apart i n j (inr h) e = omega arith

collect_threads_lem :
    (m : Machine) (read : ℕ → List ℕ → ProcessState) (usage : ℕ → CpuUsage)
    (v : IsReadable m read usage) (clock : ℕ) (pid : ℤ) (ids : List ℤ) (i : ℕ)
    (ps : List ProcessState)
    → i + length ids ≤ length ps
    → Returns (collect_threads m clock pid ids i ps) λ r. Returns r λ ps'.
      (length ps' ≡ length ps)
      × SameElsewhere i (length ids) ps ps'
      × HasReadings read clock pid ids i ps'
unfolding collect_threads
collect_threads_lem m read usage v clock pid [] i ps room =
    (_, refl, (_, refl, (refl, (λ j out. refl), tt)))
collect_threads_lem m read usage v clock pid (tid ∷ ids) i ps room =
    let x = read clock (thread_file pid tid) in
    let run1 =
      collect_thread_info_lem m clock pid tid
      ∙ read_ok m read usage v clock (thread_file pid tid) in
    let run2 = store_lem ps i x (omega arith) in
    let (r, run3, (ps', same, p)) =
      collect_threads_lem m read usage v (clock + 1) pid ids (i + 1) (set ps i x)
        (omega (arith, length-set ps i x)) in
    (
      r,
      rw (run1, run2) run3,
      (
        ps',
        same,
        (
          p.0 ∙ length-set ps i x,
          (λ j out.
              p.1 j (outside i (length ids) j out)
              ∙ get_elem?-set_ne ps x (apart i (length ids) j out)),
          (p.1 i (inl (omega arith)) ∙ get_elem?-set_self ps i x (omega arith), p.2),
        ),
      ),
    )

HasReadings-same :
    (read : ℕ → List ℕ → ProcessState) (clock : ℕ) (pid : ℤ) (ids : List ℤ) (i : ℕ)
    (ps ps' : List ProcessState)
    → ((j : ℕ) → i ≤ j → j < i + length ids → get_elem? ps' j ≡ get_elem? ps j)
    → HasReadings read clock pid ids i ps
    → HasReadings read clock pid ids i ps'
HasReadings-same read clock pid [] i ps ps' same h = tt
HasReadings-same read clock pid (tid ∷ ids) i ps ps' same h = (
  same i (omega arith) (omega arith) ∙ h.0,
  HasReadings-same read (clock + 1) pid ids (i + 1) ps ps'
      (λ j le lt. same j (omega arith) (omega arith)) h.1,
)

differ : (j : ℕ) → 2 ≤ j → 1 ≢ j
differ j le e = omega arith

one-ne_zero : ◌≢◌ {A = ℕ} 1 0
one-ne_zero e = omega arith

-- Where every file can be read and the array has room for two readings of the process and of each
-- thread, `collect_cpu_time` returns the first and the second readings of the system, and the array
-- has the first and the second reading of the process at 0 and 1, the first readings of the
-- threads, in their order, from 2 on, and the second ones, in the same order, right behind them;
-- all the first readings come before all the second ones.
pub collect_cpu_time_lem :
    (m : Machine) (read : ℕ → List ℕ → ProcessState) (usage : ℕ → CpuUsage) (pid : ℤ) (ids : List ℤ)
    (ps : List ProcessState)
    → IsReadable m read usage
    → 2 + length ids + length ids ≤ length ps
    → Returns (collect_cpu_time m pid ids ps) λ r. Returns r λ out.
      (out.0 ≡ usage 0)
      × (out.1 ≡ usage (2 + length ids))
      × (get_elem? out.2 0 ≡ some (read 1 (process_file pid)))
      × (get_elem? out.2 1 ≡ some (read (3 + length ids) (process_file pid)))
      × HasReadings read 2 pid ids 2 out.2
      × HasReadings read (4 + length ids) pid ids (length ids + 2) out.2
unfolding collect_cpu_time read_sys_prof
collect_cpu_time_lem m read usage pid ids ps v room =
    let n = length ids in
    let p0 = read 1 (process_file pid) in
    let p1 = read (3 + n) (process_file pid) in
    let info0 =
      collect_single_process_info_lem m 1 pid ∙ read_ok m read usage v 1 (process_file pid) in
    let info1 =
      collect_single_process_info_lem m (3 + n) pid
      ∙ read_ok m read usage v (3 + n) (process_file pid) in
    let (r1, run1, (ps1, same1, a)) =
      collect_threads_lem m read usage v 2 pid ids 2 (set ps 0 p0)
        (omega (arith, length-set ps 0 p0)) in
    let size1 = a.0 ∙ length-set ps 0 p0 in
    let (r2, run2, (ps2, same2, b)) =
      collect_threads_lem m read usage v (4 + n) pid ids (n + 2) (set ps1 1 p1)
        (omega (arith, length-set ps1 1 p1, size1)) in
    let first : get_elem? ps1 0 ≡ some p0 =
      a.1 0 (inl (omega arith)) ∙ get_elem?-set_self ps 0 p0 (omega arith) in
    (
      some (usage 0, usage (2 + n), ps2),
      rw (
        v.usage_ok 0,
        info0,
        store_lem ps 0 p0 (omega arith),
        run1,
        same1,
        v.usage_ok (2 + n),
        info1,
        store_lem ps1 1 p1 (omega (arith, size1)),
        run2,
        same2,
      ),
      (
        (usage 0, usage (2 + n), ps2),
        refl,
        (
          refl,
          refl,
          b.1 0 (inl (omega arith)) ∙ get_elem?-set_ne ps1 p1 one-ne_zero ∙ first,
          b.1 1 (inl (omega arith)) ∙ get_elem?-set_self ps1 1 p1 (omega (arith, size1)),
          HasReadings-same read 2 pid ids 2 ps1 ps2
              (λ j le lt. b.1 j (inl (omega arith)) ∙ get_elem?-set_ne ps1 p1 (differ j le)) a.2,
          b.2,
        ),
      ),
    )
