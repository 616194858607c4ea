-- ===== src/Irps/Rounds.antt =====
-- dokan-sys/src/dokany/sys/event.c: the ends of a search and the rounds of the second loop of DokanCompleteIrp.
use crv_virtual_disk.Prelude.{
  ℕ, ◌+◌, ◌%◌, ◌^◌, ◌≤◌, ◌<◌, ◌≡◌, refl, ap, ◌∙◌, Bool, true, false, ltb, leb, List, ◌∷◌, some,
  arith, Option, if◌then◌else◌, if_false, ◌==◌,
}
use crv_virtual_disk.Irps.State.{
  State, Reply, replied, with_status, status_cancelled, status_pending, complete_irp_request,
  execute_cleanup, free_irp_entry,
}
use crv_virtual_disk.Irps.Complete.{
  Batch, get_event_info_size, Search, stop, after_match, completed_status, dispatch_completion,
  complete_at, next_offset, complete_loop,
}

pub ltb-false : (a b : ℕ) → b ≤ a → ltb a b ≡ false
ltb-false a b h = ground arith

==_self : (n : ℕ) → (n == n) ≡ true
==_self n = ground arith

if_same {ℓ} : {A : Type ℓ} (t : Bool) (x : A) → (if t then x else x) ≡ x
if_same true x = refl
if_same false x = refl

pub after_match-last :
    (b : Batch) (reply : Reply) (c : Search)
    → c.offset ≡ b.buffer_length
    → after_match b reply c ≡ stop c
unfolding after_match
after_match-last b reply c h =
    simp (h, ltb-false b.buffer_length b.buffer_length (omega arith), ==_self b.buffer_length)
      (rw if_same (rw if_same refl))

-- The cleanup of an IRP_MJ_CLEANUP, and the completion with the reply.
abbrev pub completed_with : ℕ → ℕ → Reply → State → State
completed_with major i reply s = complete_irp_request i (replied reply) (execute_cleanup major i s)

leb-false : (m n : ℕ) → n < m → leb m n ≡ false
leb-false m n h = ground arith

complete_at-inside :
    (b : Batch) (offset major i : ℕ) (o : Option ℕ) (u : State)
    → o ≡ some i
    → offset < b.buffer_length
    → (completed_status b major i (b.reply_at offset) == status_pending) ≡ false
    → complete_at b offset major o u ≡ completed_with major i (b.reply_at offset) u
complete_at-inside b offset major i o u p l n =
    ap (λ o. complete_at b offset major o u) p
    ∙ if_false (leb b.buffer_length offset)
        (complete_irp_request i (with_status status_cancelled) u)
        (dispatch_completion b major i (b.reply_at offset) u) (leb-false b.buffer_length offset l)
    ∙ if_false (completed_status b major i (b.reply_at offset) == status_pending)
        (execute_cleanup major i u) (completed_with major i (b.reply_at offset) u) n

next_offset-inside :
    (b : Batch) (offset major : ℕ)
    → offset < b.buffer_length
    → next_offset b offset major
      ≡ (offset + get_event_info_size b major (b.reply_at offset)) % 2 ^ 32
unfolding get_event_info_size
next_offset-inside b offset major l = simp (leb-false b.buffer_length offset l) refl

pub complete_loop-step :
    (b : Batch) (offset major e i : ℕ) (es : List ℕ) (u : State)
    → u.unmount_pending ≡ false
    → (u.entries e).major_function ≡ major
    → (u.entries e).irp ≡ some i
    → offset < b.buffer_length
    → (completed_status b major i (b.reply_at offset) == status_pending) ≡ false
    → complete_loop b offset (e ∷ es) u
      ≡ complete_loop b
          ((offset + get_event_info_size b major (b.reply_at offset)) % 2 ^ 32)
          es
          (free_irp_entry e (completed_with major i (b.reply_at offset) u))
unfolding complete_loop
complete_loop-step b offset major e i es u m q p l n =
    if_false u.unmount_pending (false, u)
      (complete_loop b (next_offset b offset (u.entries e).major_function) es
        (free_irp_entry e (complete_at b offset (u.entries e).major_function (u.entries e).irp u)))
      m
    ∙ ap
        (λ k.
          complete_loop b (next_offset b offset k) es
            (free_irp_entry e (complete_at b offset k (u.entries e).irp u)))
        q
    ∙ ap (λ t. complete_loop b (next_offset b offset major) es (free_irp_entry e t))
        (complete_at-inside b offset major i (u.entries e).irp u p l n)
    ∙ ap
        (λ n.
          complete_loop b n es (free_irp_entry e (completed_with major i (b.reply_at offset) u)))
        (next_offset-inside b offset major l)
