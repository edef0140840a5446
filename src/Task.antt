-- ===== src/Task.antt =====
-- libchimp/task.c: the mailbox of a task, with `chimp_task_send`, `chimp_task_recv` and the end of the
-- task's thread. Each function here is what runs between taking the lock and giving it up, in a return
-- or in `pthread_cond_wait`; the calls of pthread succeed.
pub mod Steps
mod Tests
use chimp.Common.{Bool, true, false, Option, none, some, if◌then◌else◌}
use chimp.Common.Runs.{Run, done, bug}

-- `inbox`, the flags INBOX_FULL and DONE, and whether `lock` is held.
pub record Mailbox (M : Type 0) : Type 0 where
  pub inbox : Option M
  pub full : Bool
  pub finished : Bool
  pub locked : Bool

-- How `chimp_task_send` goes on: it returns true, it returns false, or it waits.
pub data Sending : Type 0 where
  accepted refused sender_waits : Sending

-- How `chimp_task_recv` goes on: it has the message, it returns NULL, or it waits.
pub data Receiving (M : Type 0) : Type 0 where
  received : Option M → Receiving M
  gone receiver_waits : Receiving M

module _ {M : Type 0} where
  -- A new mailbox
  abbrev pub mailbox : Mailbox M
  mailbox = record { inbox = none; full = false; finished = false; locked = false }

  -- `chimp_task_send` from its loop on, where it holds the lock
  unfoldable pub send_loop : M → Mailbox M → Sending × Mailbox M
  send_loop msg task =
      if task.full
      then (sender_waits, record task { locked = false })
      else (accepted, record task { inbox = some msg; full = true; locked = false })

  -- `chimp_task_send` from taking the lock on; it returns from a task that is done without unlocking.
  unfoldable pub send : Bool → M → Mailbox M → Run (Sending × Mailbox M)
  send is_local msg task =
      if is_local
      then bug
      else (if task.finished
          then done (refused, record task { locked = true })
          else done (send_loop msg (record task { locked = true })))

  -- `chimp_task_recv` from its loop on, where it holds the lock
  unfoldable pub recv_loop : Mailbox M → Receiving M × Mailbox M
  recv_loop task =
      if task.finished
      then (gone, record task { locked = false })
      else (if task.full
          then (received task.inbox, record task { inbox = none; full = false; locked = false })
          else (receiver_waits, record task { locked = false }))

  -- `chimp_task_recv` from taking the lock on
  unfoldable pub recv : Bool → Mailbox M → Run (Receiving M × Mailbox M)
  recv is_local task =
      if is_local
      then (if task.finished then bug else done (recv_loop (record task { locked = true })))
      else bug

  -- The end of the thread, where other tasks hold references; the message in the inbox is freed.
  unfoldable pub finish : Mailbox M → Mailbox M
  finish task = record task { inbox = none; finished = true; locked = false }
