-- ===== src/Process/Options/Choice.antt =====
-- What the options of lps come to, whatever their order.
use coding_demo.Base.{
  ℕ, ◌+◌, Bool, true, false, ◌||◌, Option, none, some, List, [], ◌∷◌, if◌then◌else◌, replicate, ℤ,
  pos,
}
use coding_demo.Libc.Scan.{long_value, to_int}
use coding_demo.Process.Report.{ArgParam, Output}
use coding_demo.Process.Options.{
  Opt, cpu_usage, help, interval, pid, sort, time, unknown, Parsed, returned, parsed, is_positive,
  put_pname,
}

-- The code of the first option that ends the program: help, or a number that is not positive.
abbrev pub checked : List ℕ → Option ℕ → Option ℕ
checked optarg rest = if is_positive (to_int (long_value optarg)) then rest else some 1

abbrev pub first_stop : List Opt → Option ℕ
first_stop [] = none
first_stop (cpu_usage ∷ opts) = first_stop opts
first_stop (help ∷ opts) = some 0
first_stop (interval optarg ∷ opts) = checked optarg (first_stop opts)
first_stop (pid optarg ∷ opts) = checked optarg (first_stop opts)
first_stop (sort ∷ opts) = first_stop opts
first_stop (time ∷ opts) = first_stop opts
first_stop (unknown ∷ opts) = first_stop opts

-- The numbers that are given last, and which of the plain options are given.
abbrev pub last_interval : List Opt → ℤ → ℤ
last_interval [] n = n
last_interval (interval optarg ∷ opts) n = last_interval opts (to_int (long_value optarg))
last_interval (_ ∷ opts) n = last_interval opts n

abbrev pub last_pid : List Opt → ℤ → ℤ
last_pid [] n = n
last_pid (pid optarg ∷ opts) n = last_pid opts (to_int (long_value optarg))
last_pid (_ ∷ opts) n = last_pid opts n

abbrev pub has_sort : List Opt → Bool
has_sort [] = false
has_sort (sort ∷ opts) = true
has_sort (_ ∷ opts) = has_sort opts

abbrev pub has_usage : List Opt → Bool
has_usage [] = false
has_usage (cpu_usage ∷ opts) = true
has_usage (_ ∷ opts) = has_usage opts

abbrev pub has_time : List Opt → Bool
has_time [] = false
has_time (time ∷ opts) = true
has_time (_ ∷ opts) = has_time opts

abbrev pub type_of : Bool → Bool → ℕ
type_of usage timed = (if usage then 1 else 0) + (if timed then 2 else 0)

abbrev stop_or : Option ℕ → Parsed → Parsed
stop_or none p = p
stop_or (some code) p = returned code

abbrev expected : List Opt → ArgParam → Bool → Bool → Parsed
expected opts param usage timed =
    parsed
      (record param {
        interval = last_interval opts param.interval;
        pid = last_pid opts param.pid;
        sort = param.sort || has_sort opts;
      })
      (type_of (usage || has_usage opts) (timed || has_time opts))

-- The parameters and the type of the report that the options and the operand give.
abbrev pub given : List Opt → Option (List ℕ) → ArgParam
given opts operand = put_pname operand (record {
  interval = last_interval opts (pos 0);
  pid = last_pid opts (pos 0);
  sort = has_sort opts;
  pname = replicate 32 0;
})

abbrev pub unless_stopped : Option ℕ → Option (ℕ × List Output) → Option (ℕ × List Output)
unless_stopped none run = run
unless_stopped (some code) run = some (code, [])
