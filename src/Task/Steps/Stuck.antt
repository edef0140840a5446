-- ===== src/Task/Steps/Stuck.antt =====
-- A send to a task that is done keeps the lock.
use chimp.Common.{true, false, ◌≡◌, refl, ap, ◌∙◌, if◌then◌else◌}
use chimp.Common.Runs.{done}
use chimp.Task.{refused, send, send_loop}
use chimp.Task.Steps.{
  System, after_send, Step, step_send, step_send_wake, step_recv, step_recv_wake, step_finish,
  Reach, here, next,
}

module _ {M : Type 0} where
  Step-unlocked : {s t : System M} → Step s t → s.box.locked ≡ false
  Step-unlocked (step_send s m l e) = l
  Step-unlocked (step_send_wake s xs ys m l e) = l
  Step-unlocked (step_recv s l e) = l
  Step-unlocked (step_recv_wake s l) = l
  Step-unlocked (step_finish s l f) = l

  locked_stays : (s t : System M) → s.box.locked ≡ true → Reach s t → t ≡ s
  locked_stays s t e here = refl
  locked_stays s t e (next {t = u} r st) =
      let same = locked_stays s u e r in
      let free = Step-unlocked st in
      let held : u.box.locked ≡ true = ap (λ v. v.box.locked) same ∙ e in cc

  -- Once a task is done, a send to it with the lock free returns false and leaves a state in which
  -- nothing can happen any more: every state that is reached from there is that state.
  pub send_done_blocks :
      (s t : System M) (m : M)
      → s.box.finished ≡ true
      → Reach (after_send m s.waiting s (refused, record (s.box) { locked = true })) t
      → (send false m s.box ≡ done (refused, record (s.box) { locked = true }))
        × (t ≡ after_send m s.waiting s (refused, record (s.box) { locked = true }))
  unfolding send
  send_done_blocks s t m e r = (
    ap
        (λ x.
          if x
          then done (refused, record (s.box) { locked = true })
          else done (send_loop m (record (s.box) { locked = true })))
        e,
    locked_stays (after_send m s.waiting s (refused, record (s.box) { locked = true })) t refl r,
  )
