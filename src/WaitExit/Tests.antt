-- ===== src/WaitExit/Tests.antt =====
-- The theorems on waiting and exiting at a concrete state.
use tinykernel.Base.{◌≡◌, ◌⊎◌, refl, true, [], ◌∷◌, some, ◌==◌, if◌then◌else◌, arith, ok}
use tinykernel.Thread.{Kernel}
use tinykernel.Thread.Pcb.{task_running, task_ready, task_waiting, task_hanging}
use tinykernel.Thread.Example.{busy, task_with}
use tinykernel.Thread.Invariant.{IsSound}
use tinykernel.WaitExit.{is_child, adopt, leave, sys_wait}
use tinykernel.WaitExit.Exiting.{Exited, leave-Exited}
use tinykernel.WaitExit.Waiting.{Waits, sys_wait-Waits}
use tinykernel.WaitExit.Children.{Adopted, adopt-leaves}

-- The process 5 has the two children 6 and 8, and its parent 9 waits.
abbrev family : Kernel
family = record busy {
  task = λ t.
      if t == 5
      then record (task_with 2 task_running 0) { parent_pid = some 7 }
      else if t == 9
      then task_with 7 task_waiting 31
      else record (task_with t task_ready 31) { parent_pid = some 2 };
  ready = 6 ∷ 7 ∷ 8 ∷ [];
  all = 5 ∷ 6 ∷ 7 ∷ 8 ∷ 9 ∷ [];
}

adopt-leaves_example :
    Adopted 2 family (adopt 2 family)
    × ((is_child 2 ((adopt 2 family).task 6) ≡ true)
        ⊎ (is_child 2 ((adopt 2 family).task 8) ≡ true))
adopt-leaves_example = adopt-leaves 2 6 8 family (λ e. ground (arith, e)) refl refl

family-IsSound : IsSound family
family-IsSound = record {
  may_leave = record {
    alone = λ t is runs. ground (arith, is, runs);
    queued = λ t is. ground (arith, is);
    in_queue = λ t is r. ground (arith, is, r);
    distinct = (refl, (refl, (refl, tt)));
    known = λ t is. ground (arith, is);
    current_known = refl;
    idle_known = refl;
    idle_lives = λ e. cc;
  };
  running = refl;
}

leave-Exited_example : (k' : Kernel) × (leave family ≡ ok k') × Exited 7 family k'
leave-Exited_example = leave-Exited 7 9 family family-IsSound refl refl refl

-- Its child 8 has called `leave`.
abbrev bereft : Kernel
bereft = record family {
  task = λ t.
      if t == 8
      then record (task_with 8 task_hanging 31) { parent_pid = some 2; exit_status = 4 }
      else family.task t;
  ready = 6 ∷ 7 ∷ [];
}

bereft-IsSound : IsSound bereft
bereft-IsSound = record {
  may_leave = record {
    alone = λ t is runs. ground (arith, is, runs);
    queued = λ t is. ground (arith, is);
    in_queue = λ t is r. ground (arith, is, r);
    distinct = (refl, (refl, tt));
    known = λ t is. ground (arith, is);
    current_known = refl;
    idle_known = refl;
    idle_lives = λ e. cc;
  };
  running = refl;
}

sys_wait-Waits_example : Waits bereft (sys_wait bereft)
sys_wait-Waits_example = sys_wait-Waits bereft bereft-IsSound

-- Before that it waits.
sys_wait-Waits_instance : Waits family (sys_wait family)
sys_wait-Waits_instance = sys_wait-Waits family family-IsSound
