-- ===== src/Task/Tests.antt =====
-- Concrete runs of the mailbox.
use chimp.Common.{ℕ, true, false, none, some, [], ◌∷◌, ◌≡◌, refl}
use chimp.Common.Runs.{done}
use chimp.Task.{mailbox, refused, send, send_loop, recv, recv_loop}
use chimp.Task.Steps.{System, start, after_send, step_send, step_recv, Reach, here, next}
use chimp.Task.Steps.Delivery.{Delivers, delivery}
use chimp.Task.Steps.Stuck.{send_done_blocks}

-- One message sent and received.
abbrev one_sent : System ℕ
one_sent = record {
  box = record { inbox = some 5; full = true; finished = false; locked = false };
  waiting = [];
  sent = 5 ∷ [];
  taken = [];
  dropped = [];
}

abbrev one_taken : System ℕ
one_taken = record { box = mailbox; waiting = []; sent = 5 ∷ []; taken = 5 ∷ []; dropped = [] }

one_taken-Reach : Reach start one_taken
unfolding send send_loop recv recv_loop
one_taken-Reach = next (next here (step_send start 5 refl refl)) (step_recv one_sent refl refl)

delivery_example : Delivers one_taken
delivery_example = delivery one_taken one_taken-Reach

abbrev ended : System ℕ
ended = record {
  box = record { inbox = none; full = false; finished = true; locked = false };
  waiting = [];
  sent = [];
  taken = [];
  dropped = [];
}

send_done_blocks_example :
    (send false 5 ended.box ≡ done (refused, record (ended.box) { locked = true }))
    × (after_send 5 [] ended (refused, record (ended.box) { locked = true })
        ≡ after_send 5 [] ended (refused, record (ended.box) { locked = true }))
send_done_blocks_example =
    send_done_blocks ended (after_send 5 [] ended (refused, record (ended.box) { locked = true })) 5
      refl here
