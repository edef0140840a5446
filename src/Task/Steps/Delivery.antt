-- ===== src/Task/Steps/Delivery.antt =====
-- Each message that a send accepts is received once, in order, or is still in the inbox, or was there
-- when the task ended or later.
use chimp.Common.{
  Bool, true, false, none, some, List, [], ◌∷◌, ◌++◌, ◌≡◌, refl, sym, ap, subst, ◌∙◌, Bool-cases,
  inl, inr, ◌⊎◌, if◌then◌else◌,
}
use mathlib.Core.List.{append_assoc, append-nil}
use chimp.Common.Runs.{done, bug}
use chimp.Task.{
  Mailbox, Sending, accepted, refused, sender_waits, Receiving, received, gone, receiver_waits,
  send, send_loop, recv, recv_loop, finish,
}
use chimp.Task.Steps.{
  System, start, held, after_send, after_recv, Step, step_send, step_send_wake, step_recv,
  step_recv_wake, step_finish, Reach, here, next,
}

module _ {M : Type 0} where
  -- The flag INBOX_FULL says what the inbox holds.
  abbrev pub IsFlagged : Mailbox M → Type 0
  IsFlagged box =
      ((box.full ≡ true) × ((m : M) × (box.inbox ≡ some m)))
      ⊎ ((box.full ≡ false) × (box.inbox ≡ none))

  pub record Delivers (s : System M) : Type 0 where
    pub order : s.sent ≡ s.taken ++ (s.dropped ++ held s.box.inbox)
    pub flag : (s.box.finished ≡ true) ⊎ ((s.dropped ≡ []) × IsFlagged s.box)
    pub empty : (s.box.full ≡ true) ⊎ (s.box.inbox ≡ none)

  send_loop_full :
      (m : M) (b : Mailbox M)
      → b.full ≡ true
      → send_loop m b ≡ (sender_waits, record b { locked = false })
  unfolding send_loop
  send_loop_full m b e =
      ap
        (λ x.
          if x
          then (sender_waits, record b { locked = false })
          else (accepted, record b { inbox = some m; full = true; locked = false }))
        e

  send_loop_free :
      (m : M) (b : Mailbox M)
      → b.full ≡ false
      → send_loop m b ≡ (accepted, record b { inbox = some m; full = true; locked = false })
  unfolding send_loop
  send_loop_free m b e =
      ap
        (λ x.
          if x
          then (sender_waits, record b { locked = false })
          else (accepted, record b { inbox = some m; full = true; locked = false }))
        e

  unfinished :
      (s : System M) → s.box.finished ≡ false → Delivers s → (s.dropped ≡ []) × IsFlagged s.box
  unfinished s e d = elim d.flag [ inl f ↦ cc | inr r ↦ r ]

  no_mail : (s : System M) → s.box.full ≡ false → Delivers s → s.box.inbox ≡ none
  no_mail s e d = elim d.empty [ inl f ↦ cc | inr r ↦ r ]

  put-Delivers :
      (s : System M) (m : M) (others : List M)
      → s.box.full ≡ false
      → Delivers s
      → Delivers (
          after_send m others s
            (accepted, record (s.box) { inbox = some m; full = true; locked = false }))
  put-Delivers s m others f d = record {
    order =
        ap (λ t. t ++ m ∷ []) d.order
        ∙ ap (λ i. (s.taken ++ (s.dropped ++ held i)) ++ m ∷ []) (no_mail s f d)
        ∙ ap (λ t. (s.taken ++ t) ++ m ∷ []) (append-nil s.dropped)
        ∙ append_assoc s.taken s.dropped (m ∷ []);
    flag = elim d.flag [ inl e ↦ inl e | inr (e, _) ↦ inr (e, inl (refl, (m, refl))) ];
    empty = inl refl;
  }

  same_mail :
      (s t : System M)
      → Delivers s
      → t.sent ≡ s.sent
      → t.taken ≡ s.taken
      → t.dropped ≡ s.dropped
      → t.box.inbox ≡ s.box.inbox
      → t.box.full ≡ s.box.full
      → t.box.finished ≡ s.box.finished
      → Delivers t
  same_mail s t d a b c i f e = record {
    order = a ∙ d.order ∙ (λ k. sym b k ++ (sym c k ++ held (sym i k)));
    flag = elim d.flag [
      | inl x ↦ inl (e ∙ x)
      | inr (x, inl (y, (m, z))) ↦ inr (c ∙ x, inl (f ∙ y, (m, i ∙ z)))
      | inr (x, inr (y, z)) ↦ inr (c ∙ x, inr (f ∙ y, i ∙ z))
    ];
    empty = elim d.empty [ inl x ↦ inl (f ∙ x) | inr x ↦ inr (i ∙ x) ];
  }

  send_loop-Delivers :
      (s : System M) (m : M) (others : List M)
      → Delivers s
      → Delivers (after_send m others s (send_loop m (record (s.box) { locked = true })))
  send_loop-Delivers s m others d = elim (Bool-cases s.box.full) [
    | inl t ↦
        subst (λ r. Delivers (after_send m others s r))
          (sym (send_loop_full m (record (s.box) { locked = true }) t))
          (same_mail s _ d refl refl refl refl refl refl)
    | inr f ↦
        subst (λ r. Delivers (after_send m others s r))
          (sym (send_loop_free m (record (s.box) { locked = true }) f))
          (put-Delivers s m others f d)
  ]

  send_cases :
      (m : M) (b : Mailbox M) (r : Sending × Mailbox M)
      → send false m b ≡ done r
      → (r ≡ (refused, record b { locked = true })) ⊎ (r ≡ send_loop m (record b { locked = true }))
  unfolding send
  send_cases m b r e = elim (Bool-cases b.finished) [
    | inl t ↦
        let q : send false m b ≡ done (refused, record b { locked = true }) =
          ap
            (λ x.
              if x
              then done (refused, record b { locked = true })
              else done (send_loop m (record b { locked = true })))
            t in
        inl cc
    | inr f ↦
        let q : send false m b ≡ done (send_loop m (record b { locked = true })) =
          ap
            (λ x.
              if x
              then done (refused, record b { locked = true })
              else done (send_loop m (record b { locked = true })))
            f in
        inr cc
  ]

  recv_cases :
      (b : Mailbox M) (r : Receiving M × Mailbox M)
      → recv true b ≡ done r
      → r ≡ recv_loop (record b { locked = true })
  unfolding recv
  recv_cases b r e = elim (Bool-cases b.finished) [
    | inl t ↦
        let q : recv true b ≡ bug =
          ap (λ x. if x then bug else done (recv_loop (record b { locked = true }))) t in
        cc
    | inr f ↦
        let q : recv true b ≡ done (recv_loop (record b { locked = true })) =
          ap (λ x. if x then bug else done (recv_loop (record b { locked = true }))) f in
        cc
  ]

  recv_loop_cases :
      (b : Mailbox M)
      → (recv_loop b ≡ (gone, record b { locked = false }))
        ⊎ (((b.finished ≡ false)
              × (b.full ≡ true)
              × (recv_loop b
                  ≡ (received b.inbox, record b { inbox = none; full = false; locked = false })))
            ⊎ (recv_loop b ≡ (receiver_waits, record b { locked = false })))
  unfolding recv_loop
  recv_loop_cases b =
      let taking : Receiving M × Mailbox M =
        (received b.inbox, record b { inbox = none; full = false; locked = false }) in
      let waiting : Receiving M × Mailbox M = (receiver_waits, record b { locked = false }) in
      let go : Bool → Receiving M × Mailbox M = λ x.
        if x then (gone, record b { locked = false }) else (if b.full then taking else waiting) in
      elim (Bool-cases b.finished) [
        | inl t ↦ inl (ap go t)
        | inr f ↦ elim (Bool-cases b.full) [
          | inl t ↦ inr (inl (f, t, ap go f ∙ ap (λ x. if x then taking else waiting) t))
          | inr g ↦ inr (inr (ap go f ∙ ap (λ x. if x then taking else waiting) g))
        ]
      ]

  take-Delivers :
      (s : System M)
      → s.box.finished ≡ false
      → s.box.full ≡ true
      → Delivers s
      → Delivers (
          after_recv s
            (received s.box.inbox, record (s.box) { inbox = none; full = false; locked = false }))
  take-Delivers s f t d =
      let (gone_, mail) = unfinished s f d in
      record {
        order =
            d.order
            ∙ (λ k. s.taken ++ (gone_ k ++ held s.box.inbox))
            ∙ sym (append-nil (s.taken ++ held s.box.inbox))
            ∙ (λ k. (s.taken ++ held s.box.inbox) ++ (sym gone_ k ++ []));
        flag = inr (gone_, inr (refl, refl));
        empty = inr refl;
      }

  recv_loop-Delivers :
      (s : System M)
      → Delivers s
      → Delivers (after_recv s (recv_loop (record (s.box) { locked = true })))
  recv_loop-Delivers s d = elim (recv_loop_cases (record (s.box) { locked = true })) [
    | inl q ↦
        subst (λ r. Delivers (after_recv s r)) (sym q)
          (same_mail s _ d refl refl refl refl refl refl)
    | inr (inl (f, t, q)) ↦ subst (λ r. Delivers (after_recv s r)) (sym q) (take-Delivers s f t d)
    | inr (inr q) ↦
        subst (λ r. Delivers (after_recv s r)) (sym q)
          (same_mail s _ d refl refl refl refl refl refl)
  ]

  finish-Delivers :
      (s : System M)
      → s.box.finished ≡ false
      → Delivers s
      → Delivers (record s { box = finish s.box; dropped = held s.box.inbox })
  unfolding finish
  finish-Delivers s f d =
      let (none_, mail) = unfinished s f d in
      record {
        order =
            d.order
            ∙ (λ k. s.taken ++ (none_ k ++ held s.box.inbox))
            ∙ ap (λ t. s.taken ++ t) (sym (append-nil (held s.box.inbox)));
        flag = inl refl;
        empty = inr refl;
      }

  Step-Delivers : {s t : System M} → Step s t → Delivers s → Delivers t
  Step-Delivers (step_send s m {r = r} l e) d = elim (send_cases m s.box r e) [
    | inl q ↦
        subst (λ r. Delivers (after_send m s.waiting s r)) (sym q)
          (same_mail s _ d refl refl refl refl refl refl)
    | inr q ↦
        subst (λ r. Delivers (after_send m s.waiting s r)) (sym q)
          (send_loop-Delivers s m s.waiting d)
  ]
  Step-Delivers (step_send_wake s xs ys m l e) d = send_loop-Delivers s m (xs ++ ys) d
  Step-Delivers (step_recv s {r = r} l e) d =
      subst (λ r. Delivers (after_recv s r)) (sym (recv_cases s.box r e)) (recv_loop-Delivers s d)
  Step-Delivers (step_recv_wake s l) d = recv_loop-Delivers s d
  Step-Delivers (step_finish s l f) d = finish-Delivers s f d

  -- Whatever the interleaving of sends and receives from a new mailbox, the messages accepted are those
  -- received, in the same order, then those that the end of the task freed, then that in the inbox; and
  -- until the task ends nothing is freed and INBOX_FULL is set exactly where the inbox has a message.
  pub delivery : (s : System M) → Reach start s → Delivers s
  delivery s here = record { order = refl; flag = inr (refl, inr (refl, refl)); empty = inr refl }
  delivery s (next r st) = Step-Delivers st (delivery _ r)
