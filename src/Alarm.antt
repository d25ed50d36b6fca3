-- ===== src/Alarm.antt =====
-- The first directory below Bono/, src: driver.c, which sends SIGALRM to a child, and main.c, the child, which prints the time
-- between two of these signals.
pub mod Elapsed
pub mod Driver
pub mod Schedule
mod Tests
use ciic.Common.{Bool, true, false, List, [], ◌∷◌, ◌++◌}
use ciic.Common.Int.{ℤ, ◌-ℤ◌}

-- `double`, as far as the program uses it
pub record Doubles : Type 1 where
  pub Double : Type 0
  pub of_ℤ : ℤ → Double
  pub add : Double → Double → Double
  pub div : Double → Double → Double
  pub milliard : Double

-- `struct timespec`
pub record Timespec : Type 0 where
  pub tv_sec : ℤ
  pub tv_nsec : ℤ

module _ (d : Doubles) where
  -- `timespec_diff`
  unfoldable pub timespec_diff : Timespec → Timespec → d.Double
  timespec_diff current previous =
      let sec = d.of_ℤ (current.tv_sec -ℤ previous.tv_sec) in
      let nsec = d.div (d.of_ℤ (current.tv_nsec -ℤ previous.tv_nsec)) d.milliard in d.add sec nsec

  -- What the handler prints
  pub data Line : Type 0 where
    first_alarm : Line
    alarm : (signum : ℤ) (elapsed : d.Double) → Line

  -- `first_call` and `last_time`, and the lines so far
  pub record Plotter : Type 0 where
    pub first_call : Bool
    pub last_time : Timespec
    pub lines : List Line

  -- `alarm_handler`, where the clock shows `current_time`
  unfoldable pub alarm_handler : ℤ → Timespec → Plotter → Plotter
  unfolding timespec_diff
  alarm_handler signum current_time p = elim p.first_call [
    | true ↦ record {
      first_call = false;
      last_time = current_time;
      lines = p.lines ++ first_alarm ∷ [];
    }
    | false ↦ record {
      first_call = false;
      last_time = current_time;
      lines = p.lines ++ alarm signum (timespec_diff current_time p.last_time) ∷ [];
    }
  ]
