-- ===== src/Ide/Waiting.antt =====
-- `busy_wait` and the wait for the interrupt of the disk, in device/ide.c.
use tinykernel.Base.{
  ℕ, zero, suc, ◌+◌, ◌≤◌, ◌<◌, ◌≡◌, ◌⊎◌, inl, inr, refl, sym, subst, ap, ◌∙◌, true, false, leb,
  arith, Bool-cases, ok,
}
use tinykernel.Ide.{
  Channel, is_busy, has_data, read_status, poll, busy_wait, intr_hd_handler, take_done, cmd_out,
  wait_done,
}
use tinykernel.Ide.Ata.{ReadyAt, IsReady}

poll-ready :
    (left : ℕ) (channel : Channel) (at : ℕ)
    → channel.time ≤ at
    → at < channel.time + left
    → ((j : ℕ) → channel.time ≤ j → j < at → is_busy (channel.status j) ≡ true)
    → is_busy (channel.status at) ≡ false
    → has_data (channel.status (at + 1)) ≡ true
    → poll left channel ≡ (true, record channel { time = at + 1 + 1 })
unfolding poll
poll-ready zero channel at lo hi busy idle ready = absurd (omega (arith, lo, hi))
poll-ready (suc left) channel at lo hi busy idle ready = elim (Bool-cases (leb at channel.time)) [
  | inl now ↦
      (let same : at ≡ channel.time = ground (arith, now, lo) in
        let idle' = subst (λ (t : ℕ). is_busy (channel.status t) ≡ false) same idle in
        let ready' = subst (λ (t : ℕ). has_data (channel.status (t + 1)) ≡ true) same ready in
        rw (idle', ready') (ap (λ (t : ℕ). (true, record channel { time = t + 1 + 1 })) (sym same)))
  | inr later ↦ rw (busy channel.time (omega arith) (ground (arith, later))) (
      poll-ready left (read_status channel).1 at (ground (arith, later)) (omega (arith, hi))
        (λ j l h. busy j (omega (arith, l)) h) idle ready)
]

-- `busy_wait` where the status register will say within 29999 reads that the disk is not busy, and in the read behind that it has data: it returns true behind those reads.
pub busy_wait-ready :
    (channel : Channel) (r : ReadyAt channel.status channel.time)
    → busy_wait channel ≡ (true, record channel { time = r.at + 1 + 1 })
unfolding busy_wait
busy_wait-ready channel r = poll-ready 29999 channel r.at r.later r.soon r.busy r.idle r.ready

poll-never :
    (left : ℕ) (channel : Channel)
    → ((j : ℕ) → channel.time ≤ j → j < channel.time + left → is_busy (channel.status j) ≡ true)
    → poll left channel ≡ (false, record channel { time = channel.time + left })
unfolding poll
poll-never zero channel busy = ap (λ (t : ℕ). (false, record channel { time = t })) (omega arith)
poll-never (suc left) channel busy = rw (busy channel.time (omega arith) (omega arith)) (
    poll-never left (read_status channel).1 (λ j l h. busy j (omega (arith, l)) (omega (arith, h)))
    ∙ ap (λ (t : ℕ). (false, record channel { time = t })) (omega arith))

-- `busy_wait`, if the next 29999 reads of the status register say that the disk is busy: it makes these reads and no more, and returns false.
pub busy_wait-never :
    (channel : Channel)
    → ((j : ℕ) → channel.time ≤ j → j < channel.time + 29999 → is_busy (channel.status j) ≡ true)
    → busy_wait channel ≡ (false, record channel { time = channel.time + 29999 })
unfolding busy_wait
busy_wait-never channel busy = poll-never 29999 channel busy

-- A channel on which nobody waits.
pub record IsIdle (channel : Channel) : Type 0 where
  pub irq : (channel.irq_no ≡ 0x2e) ⊎ (channel.irq_no ≡ 0x2f)
  pub none_done : channel.disk_done ≡ 0
  pub ready : IsReady channel.status

-- Behind a command, the wait for the interrupt ends and leaves the semaphore at 0.
pub wait_done-cmd_out :
    (cmd : ℕ) (channel : Channel)
    → IsIdle channel
    → wait_done (cmd_out cmd channel)
      ≡ ok (record (cmd_out cmd channel) { expecting_intr = false; time = channel.time + 1 })
unfolding wait_done cmd_out intr_hd_handler take_done
wait_done-cmd_out cmd channel v = elim v.irq [
  | inl e ↦ rw (v.none_done, e) refl
  | inr e ↦ rw (v.none_done, e) refl
]
