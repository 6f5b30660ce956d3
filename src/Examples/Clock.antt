-- ===== src/Examples/Clock.antt =====
-- The theorem on the clock of flush_worker at a concrete machine.
use kaf_katch.Prelude.{ℕ, ◌+◌, ◌*◌, ◌≤◌, ◌==◌, refl, if◌then◌else◌, ltb, false, arith}
use kaf_katch.Sniffer.Clock.{nanoseconds, second, Host, KeepsTime, flush_pace, flush_pace-OnTime}

-- The first round takes two seconds and a half, and each sleep 50 nanoseconds more than it should.
abbrev slow_start : Host
slow_start = record {
  clock_gettime = record { tv_sec = 5; tv_nsec = 100 };
  first = 5000000120;
  work = λ round. if round == 0 then 2500000000 else 1000;
  clock_nanosleep = λ round now deadline.
      if ltb now (nanoseconds deadline) then nanoseconds deadline + 50 else now + 50;
  interrupted = λ round. false;
}

slow_start-KeepsTime : KeepsTime slow_start 50
slow_start-KeepsTime = record {
  started = omega arith;
  slept = λ round now deadline calm. ground arith;
  woken = λ round now deadline. ground arith;
}

-- The delay is over at the third tick.
flush_pace-OnTime_example :
    (nanoseconds slow_start.clock_gettime + 3 * second ≤ (flush_pace slow_start 3).now)
    × ((flush_pace slow_start 3).now ≤ nanoseconds slow_start.clock_gettime + 3 * second + 50)
unfolding flush_pace
flush_pace-OnTime_example =
    flush_pace-OnTime slow_start 50 slow_start-KeepsTime 1 900000000 short 1 1500000020
      (omega arith) (omega arith) refl
  where
    short : (round : ℕ) → 1 ≤ round → slow_start.work round + 50 + 900000000 ≤ second
    short round h = ground arith
