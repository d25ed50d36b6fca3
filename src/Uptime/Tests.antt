-- ===== src/Uptime/Tests.antt =====
-- Reports of Section5/L1, and the theorem at one.
use ciic.Common.{
  ℕ, ◌-◌, ◌*◌, ◌/◌, ◌^◌, if◌then◌else◌, ◌≡◌, refl, true, none, some, List, [], ◌∷◌, length, ltb,
}
use ciic.Common.Text.{codes, fgets_all}
use ciic.Uptime.{Doubles, Os, main, convert_time}
use ciic.Uptime.Times.{file_of}

-- Whole numbers in place of `double`; the file is read as two lengths, of what it holds.
abbrev whole : Doubles
whole = record {
  Double = ℕ;
  of_ℕ = λ n. n;
  sub = λ x y. x - y;
  mul = λ x y. x * y;
  div = λ x y. x / y;
  is_less = ltb;
  to_int = λ x. if ltb x (2 ^ 31) then some x else none;
  scan_two = λ file. some (90061 * length file, 7);
}

abbrev lines : List (List ℕ)
lines = codes "processor : 0" ∷ codes "model : x" ∷ codes "processor : 1" ∷ []

abbrev os : Os
os = record {
  uptime_file = some (codes "x");
  cpuinfo_file = some (file_of lines);
  getcwd = some (codes "/home/build");
  dirname = λ path. codes "/home";
  copies_cwd = true;
  copies_parent = true;
  report_opens = λ path. true;
}

-- A day, an hour, a minute and a second
one_of_each : convert_time whole 90061 ≡ some (record { days = 1; hours = 1; mins = 1; secs = 1 })
unfolding convert_time
one_of_each = refl

too_long : convert_time whole (2 ^ 31) ≡ none
unfolding convert_time
too_long = refl

no_cores : main whole (record os { cpuinfo_file = some (codes "model : x\n") }) ≡ none
unfolding main fgets_all
no_cores = refl
