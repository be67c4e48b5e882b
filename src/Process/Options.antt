-- ===== src/Process/Options.antt =====
-- C/process/lps.c: the options and the name on the command line. What `getopt_long` makes of the
-- arguments is an argument: the options in order, and the first operand.
pub mod Choice
use coding_demo.Base.{
  ℕ, zero, suc, ◌+◌, ◌-◌, ◌/◌, ◌%◌, ◌^◌, ◌≤◌, ◌<◌, ◌≡◌, refl, ap, sym, ◌∙◌, Bool, true, false, ◌||◌,
  Option, none, some, List, [], ◌∷◌, ◌++◌, ltb, leb, ◌==◌, if◌then◌else◌, length, replicate, ◌>>=◌,
  ℤ, pos, negsuc, arith, Bool-cases, inl, inr,
}
use coding_demo.Libc.Buffer.{take, c_string, write_at, IsText}
use coding_demo.Libc.Scan.{long_value, to_int}
use coding_demo.Process.{Machine, ProcessState}
use coding_demo.Process.Report.{ArgParam, Output, e_cpu_usage, e_process_time, collect_process_info}

-- An option, with the text of `optarg`.
pub data Opt : Type 0 where
  cpu_usage : Opt
  help : Opt
  interval : List ℕ → Opt
  pid : List ℕ → Opt
  sort : Opt
  time : Opt
  unknown : Opt

-- `main` returns, or goes on with the parameters and the type of the report.
pub data Parsed : Type 0 where
  returned : ℕ → Parsed
  parsed : ArgParam → ℕ → Parsed

abbrev pub is_positive : ℤ → Bool
is_positive (pos n) = ltb 0 n
is_positive (negsuc n) = false

-- `type |= e_cpu_usage` and `type |= e_process_time`
abbrev pub with_cpu_usage : ℕ → ℕ
with_cpu_usage type = if e_cpu_usage type then type else type + 1

abbrev pub with_process_time : ℕ → ℕ
with_process_time type = if e_process_time type then type else type + 2

unfoldable pub parse_options : List Opt → ArgParam → ℕ → Parsed
parse_options [] param type = parsed param type
parse_options (cpu_usage ∷ opts) param type = parse_options opts param (with_cpu_usage type)
parse_options (help ∷ opts) param type = returned 0
parse_options (interval optarg ∷ opts) param type =
    let n = to_int (long_value optarg) in
    let rest = parse_options opts (record param { interval = n }) type in
    if is_positive n then rest else returned 1
parse_options (pid optarg ∷ opts) param type =
    let n = to_int (long_value optarg) in
    let rest = parse_options opts (record param { pid = n }) type in
    if is_positive n then rest else returned 1
parse_options (sort ∷ opts) param type = parse_options opts (record param { sort = true }) type
parse_options (time ∷ opts) param type = parse_options opts param (with_process_time type)
parse_options (unknown ∷ opts) param type = parse_options opts param type

-- `strncpy(pname, name, sizeof(pname) - 1)`, with 32 bytes in `pname`.
unfoldable pub put_pname : Option (List ℕ) → ArgParam → ArgParam
unfolding write_at
put_pname none param = param
put_pname (some name) param = record param {
  pname = write_at param.pname 0 (take 31 (name ++ replicate 31 0));
}

abbrev pub no_param : ArgParam
no_param = record { interval = pos 0; pid = pos 0; sort = false; pname = replicate 32 0 }

-- The end of `main`, which returns 0 whatever collect_process_info does.
abbrev pub outcome : Option (List Output) → ℕ × List Output
outcome none = (0, [])
outcome (some outputs) = (0, outputs)

-- `main` after the loop over the options.
unfoldable pub run_parsed :
    (List ℤ → List ℤ)
    → (ℕ → Machine)
    → Option (List ℕ)
    → List ProcessState
    → Parsed
    → Option (ℕ × List Output)
unfolding put_pname
run_parsed qsort m operand ps (returned code) = some (code, [])
run_parsed qsort m operand ps (parsed param type) =
    collect_process_info qsort m (put_pname operand param) type ps >>= λ out. some (outcome out)

-- What `main` returns and prints.
unfoldable pub lps_main :
    (List ℤ → List ℤ)
    → (ℕ → Machine)
    → List Opt
    → Option (List ℕ)
    → List ProcessState
    → Option (ℕ × List Output)
unfolding parse_options run_parsed
lps_main qsort m opts operand ps = run_parsed qsort m operand ps (parse_options opts no_param 0)
