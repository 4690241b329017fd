-- ===== src/Deadline/Tests.antt =====
-- Checks of concrete deadlines.
use libert.Base.{◌≡◌, ◌⊎◌, refl, true, false, Option, some, done, etimedout, ok, err, arith}
use libert.TimeScale.{Duration}
use libert.TimeKeeping.{deadline_time_expired}
use libert.Deadline.{Deadline, Ready, check_deadline_expired}
use libert.Deadline.Check.{IsTimely, IsOut, check_deadline_expired-IsOut}

-- A deadline of 100 whose mark was set at 50.
abbrev marked : Deadline
marked = record {
  since = 50;
  time = 50;
  remaining = 100;
  sigcont_tracker = 1;
  duration = some 100;
  expired = false;
}

abbrev expired : Deadline
expired = record {
  since = 50;
  time = 150;
  remaining = 0;
  sigcont_tracker = 1;
  duration = some 100;
  expired = true;
}

abbrev waiting : Option Duration → Ready
waiting timeout = ok 0

abbrev timed_out : Ready
timed_out = err etimedout

marked-IsTimely : IsTimely marked 150
marked-IsTimely = record {
  set = omega arith;
  fits = omega arith;
  not_before = omega arith;
  tracked = omega arith;
}

marked_out :
    check_deadline_expired marked (done 150) 0 (ok 1) waiting ≡ done (err etimedout, expired)
unfolding check_deadline_expired deadline_time_expired
marked_out = refl

check_deadline_expired-IsOut_example :
    (IsOut marked 150 0 × (true ≡ true) × (timed_out ≡ err etimedout))
    ⊎ ((¬ IsOut marked 150 0) × (true ≡ false))
check_deadline_expired-IsOut_example =
    check_deadline_expired-IsOut marked 150 0 1 waiting {r = err etimedout} {d' = expired}
      marked-IsTimely refl marked_out
