-- ===== src/Sync/Owner.antt =====
-- What the owner of the lock does with it: `lock_acquire` behind `sema_down`, once more while it
-- holds the lock, and `lock_release`.
use tinykernel.Base.{
  ℕ, ◌+◌, ◌-◌, ◌≤◌, ◌<◌, ◌^◌, ◌≡◌, ◌≢◌, refl, inl, inr, true, false, Option, none, some, arith,
  Bool-cases, u32, ltb,
}
use tinykernel.Sync.{
  outside, taking, holding, System, current, is_holder, lock_acquire, hold, take_lock, let_go,
  lock_release,
}
use tinykernel.Sync.Invariant.{IsLocked, Keeps}
use tinykernel.Sync.Down.{sema_down-Keeps}

module _ (s : System) (l : IsLocked s) where
  -- A thread that does not hold the lock goes into `sema_down`.
  pub lock_acquire_first-Keeps :
      s.place (current s) ≡ outside → current s ≢ s.kernel.idle → Keeps (lock_acquire s)
  unfolding lock_acquire
  lock_acquire_first-Keeps new busy =
      let other : is_holder s.lock.holder (current s) ≡ false =
        ground (arith, l.guards.holds (current s)) in
      rw other (sema_down-Keeps s l (ground arith) busy)

  module _ (mine : s.place (current s) ≡ holding) where
    is_mine : is_holder s.lock.holder (current s) ≡ true
    is_mine = ground (arith, l.guards.holds (current s))

    count_again : ℕ → System
    count_again n = record s { lock = record s.lock { holder_repeat_nr = n } }

    count_again-IsLocked : (n : ℕ) → 1 ≤ n → IsLocked (count_again n)
    unfolding count_again
    count_again-IsLocked n some_left =
        let h = l.guards in
        record {
          sound = l.sound;
          guards = record {
            binary = h.binary;
            exclusive = h.exclusive;
            closed = h.closed;
            owned = h.owned;
            holds = h.holds;
            repeated = λ t is. some_left;
            unheld = λ e. absurd (ground (arith, is_mine));
          };
          queues = l.queues;
        }

    -- The holder takes the lock again, as long as `holder_repeat_nr` does not overflow.
    pub lock_acquire_again-Keeps : s.lock.holder_repeat_nr + 1 < 2 ^ 32 → Keeps (lock_acquire s)
    unfolding lock_acquire count_again
    lock_acquire_again-Keeps small =
        let more : 1 ≤ u32 (s.lock.holder_repeat_nr + 1) = omega arith in
        record {
          after = count_again (u32 (s.lock.holder_repeat_nr + 1));
          done = rw is_mine;
          still = count_again-IsLocked (u32 (s.lock.holder_repeat_nr + 1)) more;
        }

    let_go-IsLocked : IsLocked (let_go s)
    unfolding let_go
    let_go-IsLocked =
        let h = l.guards in
        let q = l.queues in
        record {
          sound = l.sound;
          guards = record {
            binary = h.binary;
            exclusive = λ t u. ground (arith, h.exclusive t u, mine);
            closed = λ t. ground (arith, h.closed t, mine);
            owned = λ e. (current s, ground arith);
            holds = λ t. ground (arith, h.holds t, is_mine);
            repeated = λ t is. absurd (ground arith);
            unheld = λ e. refl;
          };
          queues = record {
            distinct = q.distinct;
            in_place = λ t. ground (arith, q.in_place t, mine);
            asleep = q.asleep;
            known = q.known;
            woken = λ t is. ground (arith, q.woken t, mine);
            no_lost_wakeup = λ up. absurd (ground (arith, h.closed (current s)));
            idle_outside = ground (arith, q.idle_outside, mine);
          };
        }

    -- `lock_release` by the holder passes its `ASSERT`s.
    pub lock_release-Keeps : Keeps (lock_release s)
    unfolding lock_release count_again
    lock_release-Keeps = elim (Bool-cases (ltb 1 s.lock.holder_repeat_nr)) [
      | inl nested ↦ record {
        after = count_again (s.lock.holder_repeat_nr - 1);
        done = rw (is_mine, nested);
        still = count_again-IsLocked (s.lock.holder_repeat_nr - 1) (ground arith);
      }
      | inr last ↦
          let one : s.lock.holder_repeat_nr ≡ 1 =
            ground (arith, l.guards.repeated (current s), is_mine) in
          record { after = let_go s; done = rw (is_mine, one); still = let_go-IsLocked }
    ]

  module _ (through : s.place (current s) ≡ taking) where
    nobody : s.lock.holder ≡ none
    nobody = holder-cases s.lock.holder refl
      where
        holder-cases : (h : Option ℕ) → s.lock.holder ≡ h → s.lock.holder ≡ none
        holder-cases none e = e
        holder-cases (some t) e =
            absurd (ground (arith, l.guards.holds t, through, l.guards.exclusive t (current s)))

    hold-IsLocked : IsLocked (hold s)
    unfolding hold
    hold-IsLocked =
        let h = l.guards in
        let q = l.queues in
        record {
          sound = l.sound;
          guards = record {
            binary = h.binary;
            exclusive = λ t u. ground (arith, h.exclusive t u, through);
            closed = λ t. ground (arith, h.closed t, through);
            owned = λ e. (current s, ground arith);
            holds = λ t. ground (arith, h.holds t, nobody);
            repeated = λ t is. ground arith;
            unheld = λ e. absurd (ground arith);
          };
          queues = record {
            distinct = q.distinct;
            in_place = λ t. ground (arith, q.in_place t, through);
            asleep = q.asleep;
            known = q.known;
            woken = λ t is. ground (arith, q.woken t, through);
            no_lost_wakeup = λ up. absurd (ground (arith, h.closed (current s)));
            idle_outside = ground (arith, q.idle_outside, through);
          };
        }

    -- The `ASSERT` behind `sema_down` holds: `holder_repeat_nr` is 0 then.
    pub take_lock-Keeps : Keeps (take_lock s)
    unfolding take_lock
    take_lock-Keeps =
        let none_held : s.lock.holder_repeat_nr ≡ 0 = l.guards.unheld nobody in
        record { after = hold s; done = rw none_held; still = hold-IsLocked }
