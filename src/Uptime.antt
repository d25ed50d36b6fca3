-- ===== src/Uptime.antt =====
-- Section5/L1/src/main.c: a report on the time that the system has been up and on the use of its cores.
pub mod Times
mod Tests
use ciic.Common.{
  ℕ, zero, suc, ◌+◌, ◌/◌, ◌%◌, ◌≡◌, Bool, true, false, ◌&&◌, Option, none, some, List, [], ◌∷◌,
  ◌++◌, length, ◌==◌, ltb, if◌then◌else◌, ◌>>=◌,
}
use ciic.Common.Text.{codes, fgets_all}

-- `double`, with the operations that are used; `to_int` is the conversion of a number that is not negative
-- to `int`, `none` where no int holds its whole part, which is undefined in C.
pub record Doubles : Type 1 where
  pub Double : Type 0
  pub of_ℕ : ℕ → Double
  pub sub : Double → Double → Double
  pub mul : Double → Double → Double
  pub div : Double → Double → Double
  pub is_less : Double → Double → Bool
  pub to_int : Double → Option ℕ
  -- `fscanf` with "%lf %lf"
  pub scan_two : List ℕ → Option (Double × Double)

pub record Time : Type 0 where
  pub days : ℕ
  pub hours : ℕ
  pub mins : ℕ
  pub secs : ℕ

-- What the system gives: the files /proc/uptime and /proc/cpuinfo, if they open, what `getcwd` and
-- `dirname` return, whether the two calls of `strdup` succeed, and whether the report opens.
pub record Os : Type 0 where
  pub uptime_file : Option (List ℕ)
  pub cpuinfo_file : Option (List ℕ)
  pub getcwd : Option (List ℕ)
  pub dirname : List ℕ → List ℕ
  pub copies_cwd : Bool
  pub copies_parent : Bool
  pub report_opens : List ℕ → Bool

-- `strncmp(line, prefix, strlen(prefix)) == 0`
unfoldable pub starts_with : List ℕ → List ℕ → Bool
starts_with [] line = true
starts_with (p ∷ ps) [] = false
starts_with (p ∷ ps) (c ∷ line) = p == c && starts_with ps line

abbrev pub processor : List ℕ
processor = codes "processor"

-- The `while` over the lines of /proc/cpuinfo
unfoldable pub count_cores : ℕ → List (List ℕ) → ℕ
unfolding starts_with
count_cores num_cores [] = num_cores
count_cores num_cores (line ∷ lines) =
    count_cores (if starts_with processor line then num_cores + 1 else num_cores) lines

-- PATH_MAX
abbrev pub path_max : ℕ
path_max = 4096

unfoldable pub parent_of_cwd : Os → Option (List ℕ)
parent_of_cwd os = elim os.getcwd [
  | none ↦ none
  | some cwd ↦ if os.copies_cwd && os.copies_parent then some (os.dirname cwd) else none
]

-- The assignments of `Convert_Time`, on what the conversions give
unfoldable pub on_ints : Option ℕ → Option ℕ → Option ℕ → Option ℕ → Option Time
on_ints seconds minutes hours days = do
  s ← seconds
  m ← minutes
  h ← hours
  n ← days
  some (record { days = n; hours = h % 24; mins = m % 60; secs = s % 60 })

module _ (d : Doubles) where
  -- `Convert_Time`, `none` where a conversion is undefined
  unfoldable pub convert_time : d.Double → Option Time
  unfolding on_ints
  convert_time seconds =
      let minutes = d.div seconds (d.of_ℕ 60) in
      let hours = d.div minutes (d.of_ℕ 60) in
      let days = d.div hours (d.of_ℕ 24) in
      on_ints (d.to_int seconds) (d.to_int minutes) (d.to_int hours) (d.to_int days)

  -- What is left of a number below `low` or above `high`
  abbrev pub at_least : d.Double → d.Double → d.Double
  at_least low x = if d.is_less x low then low else x

  abbrev pub at_most : d.Double → d.Double → d.Double
  at_most high x = if d.is_less high x then high else x

  abbrev pub utilisation : d.Double → d.Double → ℕ → d.Double
  utilisation uptime idle_time num_cores = at_most (d.of_ℕ 100) (
      at_least (d.of_ℕ 0)
        (d.mul (d.sub (d.of_ℕ 1) (d.div idle_time (d.mul uptime (d.of_ℕ num_cores)))) (d.of_ℕ 100)))

  pub record Report : Type 0 where
    pub path : List ℕ
    pub num_cores : ℕ
    pub up : Option Time
    pub idle_time : d.Double
    pub load : d.Double

  abbrev pub report_path : List ℕ → List ℕ
  report_path project_root = project_root ++ codes "/report.txt"

  -- The end of `main`, from `snprintf` on
  unfoldable pub write_report : Os → d.Double → d.Double → ℕ → List ℕ → Option Report
  unfolding convert_time
  write_report os uptime idle_time num_cores path =
      if ltb (length path) path_max && os.report_opens path
      then some (record {
        path = path;
        num_cores = num_cores;
        up = convert_time uptime;
        idle_time = idle_time;
        load = utilisation uptime idle_time num_cores;
      })
      else none

  unfoldable pub on_parent : Os → d.Double → d.Double → ℕ → Option (List ℕ) → Option Report
  unfolding write_report
  on_parent os uptime idle_time num_cores none = none
  on_parent os uptime idle_time num_cores (some project_root) =
      write_report os uptime idle_time num_cores (report_path project_root)

  unfoldable pub on_cores : Os → d.Double → d.Double → ℕ → Option Report
  unfolding on_parent parent_of_cwd
  on_cores os uptime idle_time num_cores =
      if num_cores == 0 then none else on_parent os uptime idle_time num_cores (parent_of_cwd os)

  unfoldable pub on_times : Os → Option (List ℕ) → Option (d.Double × d.Double) → Option Report
  unfolding on_cores count_cores
  on_times os cpuinfo none = none
  on_times os none (some times) = none
  on_times os (some file) (some (uptime, idle_time)) =
      on_cores os uptime idle_time (count_cores 0 (fgets_all 256 file))

  -- `main`: the report that it writes, or `none` for the exit with 1.
  unfoldable pub main : Os → Option Report
  unfolding on_times
  main os = elim os.uptime_file [
    | none ↦ none
    | some file ↦ on_times os os.cpuinfo_file (d.scan_two file)
  ]
