-- ===== src/Task/Steps.antt =====
-- The interleavings of any number of senders with the receiving task. A step is one section of a
-- thread in which it holds the lock, and it starts only where the lock is free.
pub mod Delivery
pub mod Stuck
use chimp.Common.{Bool, true, false, Option, none, some, List, [], ◌∷◌, ◌++◌, ◌≡◌}
use chimp.Common.Runs.{Run, done}
use chimp.Task.{
  Mailbox, mailbox, Sending, accepted, refused, sender_waits, Receiving, received, gone,
  receiver_waits, send, send_loop, recv, recv_loop, finish,
}

-- The mailbox with the history: the messages that were accepted, those that the task received, and
-- those freed at its end, each in order, and the messages of the senders that wait.
pub record System (M : Type 0) : Type 0 where
  pub box : Mailbox M
  pub waiting : List M
  pub sent : List M
  pub taken : List M
  pub dropped : List M

module _ {M : Type 0} where
  abbrev pub start : System M
  start = record { box = mailbox; waiting = []; sent = []; taken = []; dropped = [] }

  abbrev pub held : Option M → List M
  held none = []
  held (some m) = m ∷ []

  -- What a section of a sender leaves; `others` are the senders that wait besides it.
  abbrev pub after_send : M → List M → System M → Sending × Mailbox M → System M
  after_send m others s (accepted, box) = record s {
    box = box;
    waiting = others;
    sent = s.sent ++ m ∷ [];
  }
  after_send m others s (refused, box) = record s { box = box; waiting = others }
  after_send m others s (sender_waits, box) = record s { box = box; waiting = others ++ m ∷ [] }

  -- What a section of the receiver leaves.
  abbrev pub after_recv : System M → Receiving M × Mailbox M → System M
  after_recv s (received o, box) = record s { box = box; taken = s.taken ++ held o }
  after_recv s (gone, box) = record s { box = box }
  after_recv s (receiver_waits, box) = record s { box = box }

  pub data Step : System M → System M → Type 0 where
    step_send :
        (s : System M) (m : M) {r : Sending × Mailbox M}
        → s.box.locked ≡ false
        → send false m s.box ≡ done r
        → Step s (after_send m s.waiting s r)
    step_send_wake :
        (s : System M) (xs ys : List M) (m : M)
        → s.box.locked ≡ false
        → s.waiting ≡ xs ++ m ∷ ys
        → Step s (after_send m (xs ++ ys) s (send_loop m (record (s.box) { locked = true })))
    step_recv :
        (s : System M) {r : Receiving M × Mailbox M}
        → s.box.locked ≡ false
        → recv true s.box ≡ done r
        → Step s (after_recv s r)
    step_recv_wake :
        (s : System M)
        → s.box.locked ≡ false
        → Step s (after_recv s (recv_loop (record (s.box) { locked = true })))
    step_finish :
        (s : System M)
        → s.box.locked ≡ false
        → s.box.finished ≡ false
        → Step s (record s { box = finish s.box; dropped = held s.box.inbox })

  pub data Reach (s : System M) : System M → Type 0 where
    here : Reach s s
    next : {t u : System M} → Reach s t → Step t u → Reach s u
