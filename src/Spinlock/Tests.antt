-- ===== src/Spinlock/Tests.antt =====
-- Two CPUs at one lock.
use os.Prelude.{refl, true, false}
use os.Spinlock.{
  System, initlock, outside, spins, enters, Reach, start, step, acquires, wins, update, pushcli,
  acquire_start, xchg,
}
use os.Spinlock.Exclusion.{IsSound}
use os.Spinlock.Runs.{System-IsSound, GoesOn, calls_go_on}

abbrev idle : System
idle = record {
  lock = initlock;
  cpu_at = λ c. record { ncli = 0; intena = false; interrupts = true };
  stage = λ c. outside;
}

abbrev waiting : System
waiting = record idle {
  cpu_at = update 0 (pushcli (idle.cpu_at 0)) idle.cpu_at;
  stage = update 0 spins idle.stage;
}

abbrev entering : System
entering = record waiting { lock = (xchg waiting.lock).1; stage = update 0 enters waiting.stage }

-- CPU 0 has won the lock.
entering-Reach : Reach (λ c. true) entering
unfolding acquire_start
entering-Reach =
    step waiting entering
      (step idle waiting (start idle refl (λ c. refl) (λ c. (refl, refl)))
        (acquires 0 (pushcli (idle.cpu_at 0)) refl refl))
      (wins 0 refl refl)

System-IsSound_example : IsSound (λ c. true) entering
System-IsSound_example = System-IsSound (λ c. true) entering entering-Reach

calls_go_on_example : GoesOn entering 1 (entering.stage 1)
calls_go_on_example = calls_go_on (λ c. true) entering 1 entering-Reach
