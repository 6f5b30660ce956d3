-- ===== src/Sniffer/Clock.antt =====
-- sniffer/src/main.c: the clock of flush_worker, in nanoseconds of CLOCK_MONOTONIC.
use native.Mathlib.Numerals.{unary_clauses}
use kaf_katch.Prelude.{ℕ, zero, suc, ◌+◌, ◌*◌, ◌≤◌, ◌≡◌, ◌⊎◌, Bool, false, arith}

-- struct timespec
pub record Timespec : Type 0 where
  pub tv_sec : ℕ
  pub tv_nsec : ℕ

abbrev pub second : ℕ
second = 1000000000

abbrev pub nanoseconds : Timespec → ℕ
nanoseconds t = t.tv_sec * second + t.tv_nsec

-- What the rounds of flush_worker meet: `clock_gettime` is what the call before the loop gives,
-- `first` the time of the first test of `is_running`, `work` what a round takes from its test to its
-- call of clock_nanosleep, and `clock_nanosleep` when this comes back, for the number of the round,
-- the time of the call and the deadline. `interrupted` are the rounds whose sleep a signal ends.
pub record Host : Type 0 where
  pub clock_gettime : Timespec
  pub first : ℕ
  pub work : (round : ℕ) → ℕ
  pub clock_nanosleep : (round : ℕ) → (now : ℕ) → Timespec → ℕ
  pub interrupted : (round : ℕ) → Bool

-- The time of a test of `is_running`, and `next_flush` there.
pub record Pace : Type 0 where
  pub now : ℕ
  pub next_flush : Timespec

module _ (host : Host) where
  -- `next_flush.tv_sec += 1`, the work of the round, and the sleep until next_flush.
  abbrev pub pace_round : (round : ℕ) → Pace → Pace
  pace_round round p =
      let next_flush = record p.next_flush { tv_sec = p.next_flush.tv_sec + 1 } in
      record {
        now = host.clock_nanosleep round (p.now + host.work round) next_flush;
        next_flush = next_flush;
      }

  -- After some rounds.
  unfoldable pub flush_pace : (rounds : ℕ) → Pace
  flush_pace zero = record { now = host.first; next_flush = host.clock_gettime }
  flush_pace (suc rounds) = pace_round rounds (flush_pace rounds)

  -- What the documentation of these calls says, if the system wakes a thread up within `late`: the
  -- sleep ends behind its deadline if no signal interrupts it, and with no delay if that is over.
  pub record KeepsTime (late : ℕ) : Type 0 where
    pub started : host.first ≤ nanoseconds host.clock_gettime + late
    pub slept :
        (round now : ℕ) (deadline : Timespec)
        → host.interrupted round ≡ false
        → nanoseconds deadline ≤ host.clock_nanosleep round now deadline
    pub woken :
        (round now : ℕ) (deadline : Timespec)
        → (host.clock_nanosleep round now deadline ≤ now + late)
          ⊎ (host.clock_nanosleep round now deadline ≤ nanoseconds deadline + late)

  -- The deadlines are whole seconds apart, whatever the rounds take.
  flush_pace-next_flush :
      (rounds : ℕ)
      → nanoseconds (flush_pace rounds).next_flush
        ≡ nanoseconds host.clock_gettime + rounds * second
  unfolding flush_pace
  flush_pace-next_flush zero = omega arith
  flush_pace-next_flush (suc rounds) = let h = flush_pace-next_flush rounds in omega arith

  module _ (late : ℕ) (keeps : KeepsTime late) where
    -- A round that takes less than a second makes up for some of the delay.
    pace_round-lag :
        (round spare lag : ℕ)
        → host.work round + late + spare ≤ second
        → (flush_pace round).now ≤ nanoseconds (flush_pace round).next_flush + late + (lag + spare)
        → (flush_pace (suc round)).now
          ≤ nanoseconds (flush_pace (suc round)).next_flush + late + lag
    unfolding flush_pace
    pace_round-lag round spare lag short h =
        let p = flush_pace round in
        let woken =
          keeps.woken round (p.now + host.work round)
            (record p.next_flush { tv_sec = p.next_flush.tv_sec + 1 }) in
        omega arith

    module _ (k spare : ℕ)
        (short : (round : ℕ) → k ≤ round → host.work round + late + spare ≤ second) where
      pace-lag :
          (rounds lag left : ℕ)
          → (flush_pace k).now ≤ nanoseconds (flush_pace k).next_flush + late + lag
          → lag ≤ left + rounds * spare
          → (flush_pace (k + rounds)).now
            ≤ nanoseconds (flush_pace (k + rounds)).next_flush + late + left
      pace-lag zero lag left h enough = simp unary_clauses (omega arith)
      pace-lag (suc rounds) lag left h enough = simp unary_clauses (
          pace_round-lag (k + rounds) spare left (short (k + rounds) (omega arith))
            (pace-lag rounds lag (left + spare) h (omega arith)))

      -- The ticks do not drift, and a delay does not last: from any round on, if the rounds behind it
      -- take less than a second by at least `spare` and the time of waking up, then, as soon as the
      -- spare time of these makes up for the delay there, each tick comes its number of seconds after
      -- the clock was read first, and at most `late` after that, unless a signal interrupts the sleep
      -- before it.
      pub flush_pace-OnTime :
          (rounds lag : ℕ)
          → (flush_pace k).now ≤ nanoseconds (flush_pace k).next_flush + late + lag
          → lag ≤ suc rounds * spare
          → host.interrupted (k + rounds) ≡ false
          → (nanoseconds host.clock_gettime + suc (k + rounds) * second
              ≤ (flush_pace (suc (k + rounds))).now)
            × ((flush_pace (suc (k + rounds))).now
                ≤ nanoseconds host.clock_gettime + suc (k + rounds) * second + late)
      unfolding flush_pace
      flush_pace-OnTime rounds lag h enough calm =
          let p = flush_pace (k + rounds) in
          let slept =
            keeps.slept (k + rounds) (p.now + host.work (k + rounds))
              (record p.next_flush { tv_sec = p.next_flush.tv_sec + 1 }) calm in
          let due = flush_pace-next_flush (k + rounds) in
          let lagged = simp unary_clauses at (pace-lag (suc rounds) lag 0 h (omega arith)) in
          (omega arith, omega arith)
