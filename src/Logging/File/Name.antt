-- ===== src/Logging/File/Name.antt =====
-- The name of a log file, and `log_file_roll`, which opens it.
use coding_demo.Base.{
  ℕ, ◌+◌, ◌<◌, ◌≡◌, refl, none, List, [], ◌∷◌, ◌++◌, arith, length, length-append, replicate,
  Returns,
}
use coding_demo.Libc.Buffer.{
  c_string, Holds, IsText, print_at-Holds, c_string-Holds, print_at-fault,
}
use coding_demo.Libc.Decimal.{decimal}
use coding_demo.Libc.Time.{file_stamp}
use coding_demo.Logging.File.{RollEnv, get_log_file_name}

abbrev pub suffix : List ℕ
suffix = b'.' ∷ b'l' ∷ b'o' ∷ b'g' ∷ []

-- basename.datetime.hostname.pid.log
abbrev pub full_name : List ℕ → RollEnv → List ℕ
full_name base env =
    (((base ++ file_stamp env.now) ++ env.hostname) ++ (b'.' ∷ decimal env.pid)) ++ suffix

start : Holds 128 [] (replicate 128 0) 0
start = record { size = refl; rest = replicate 127 0; shape = refl; at_end = refl }

lengths :
    (base : List ℕ) (env : RollEnv)
    → length (full_name base env)
      ≡ length base
        + length (file_stamp env.now)
        + length env.hostname
        + (1 + length (decimal env.pid))
        + 4
lengths base env = omega (
  arith,
  length-append (((base ++ file_stamp env.now) ++ env.hostname) ++ (b'.' ∷ decimal env.pid)) suffix,
  length-append ((base ++ file_stamp env.now) ++ env.hostname) (b'.' ∷ decimal env.pid),
  length-append (base ++ file_stamp env.now) env.hostname,
  length-append base (file_stamp env.now),
)

-- A name that fits in the array is built whole: basename, time, host, process id and suffix.
pub get_log_file_name-fits :
    (basename : List ℕ) (env : RollEnv)
    → length (full_name (c_string basename) env) < 128
    → IsText (full_name (c_string basename) env)
    → Returns
        (get_log_file_name basename env)
        λ f. (c_string f ≡ full_name (c_string basename) env) × (length f ≡ 128)
unfolding get_log_file_name
get_log_file_name-fits basename env fits text =
    let base = c_string basename in
    let n = lengths base env in
    let (r1, run1, h1) = print_at-Holds 128 [] base _ 0 start (omega arith) in
    let (r2, run2, h2) = print_at-Holds 128 _ (file_stamp env.now) r1.0 r1.1 h1 (omega arith) in
    let (r3, run3, h3) =
      print_at-Holds 128 _ env.hostname r2.0 r2.1 h2
        (omega (arith, length-append base (file_stamp env.now))) in
    let (r4, run4, h4) = print_at-Holds 128 _ (b'.' ∷ decimal env.pid) r3.0 r3.1 h3 (
      omega (
        arith,
        length-append base (file_stamp env.now),
        length-append (base ++ file_stamp env.now) env.hostname,
      )) in
    let (r5, run5, h5) = print_at-Holds 128 _ suffix r4.0 r4.1 h4 (
      omega (
        arith,
        length-append base (file_stamp env.now),
        length-append (base ++ file_stamp env.now) env.hostname,
        length-append ((base ++ file_stamp env.now) ++ env.hostname) (b'.' ∷ decimal env.pid),
      )) in
    (r5.0, rw (run1, run2, run3, run4, run5), (c_string-Holds 128 _ r5.0 r5.1 h5 text, h5.size))

-- A basename that leaves no room for the time sends the next print out of bounds.
pub get_log_file_name-fault :
    (basename : List ℕ) (env : RollEnv)
    → length (c_string basename) < 128
    → 128 < length (c_string basename) + length (file_stamp env.now)
    → get_log_file_name basename env ≡ none
unfolding get_log_file_name
get_log_file_name-fault basename env small over =
    let base = c_string basename in
    let (r1, run1, h1) = print_at-Holds 128 [] base _ 0 start (omega arith) in
    let e =
      print_at-fault (file_stamp env.now) env.hostname r1.0 r1.1 (omega arith) (omega arith) in
    rw run1 (ground (arith, e))
