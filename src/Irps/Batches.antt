-- ===== src/Irps/Batches.antt =====
-- dokan-sys/src/dokany/sys/event.c: DokanCompleteIrp with a batch of replies.
use crv_virtual_disk.Prelude.{
  update, ℕ, ◌+◌, ◌%◌, ◌^◌, ◌≤◌, ◌<◌, ◌≡◌, refl, ap, ◌∙◌, true, false, List, [], ◌∷◌, none, some,
  arith, ◌==◌, ==_iff, Bool-cases, inl, inr,
}
use crv_virtual_disk.Memory.{ok, map_outcome}
use crv_virtual_disk.Irps.State.{
  State, Reply, Routine, irp_mj_cleanup, status_success, status_buffer_overflow, status_pending,
  free_irp_entry,
}
use crv_virtual_disk.Irps.Complete.{
  Batch, get_event_info_size, completed_status, Search, continue, after_match, keep_entry,
  add_found, search_loop, complete_loop, complete_found, end_completion, complete_irp,
}
use crv_virtual_disk.Irps.Rounds.{ltb-false, after_match-last, completed_with, complete_loop-step}

-- An entry of the list, its major function, its IRP and the reply for it.
pub record Answer : Type 0 where
  pub entry : ℕ
  pub major_function : ℕ
  pub irp : ℕ
  pub reply : Reply

abbrev pub claimed : ℕ → State → State
claimed i s = record s {
  cancel_routine = update s.cancel_routine i none;
  linked = update s.linked i none;
}

-- Every IRP is completed with its own reply, behind the cleanup of an IRP_MJ_CLEANUP, and its entry is freed.
abbrev pub answer_all : List Answer → State → State
answer_all [] s = s
answer_all (a ∷ rs) s =
    answer_all rs (free_irp_entry a.entry (completed_with a.major_function a.irp a.reply s))

-- The reply at an offset is for the entry `e`, whose IRP `i` has its cancel routine, and its completion
-- does not leave STATUS_PENDING.
pub record IsFor (b : Batch) (offset last e i : ℕ) (s : State) : Type 0 where
  pub sorted : last ≤ (b.reply_at offset).serial_number
  pub serial_number : (s.entries e).serial_number ≡ (b.reply_at offset).serial_number
  pub irp : (s.entries e).irp ≡ some i
  pub routine : Routine
  pub not_canceled : s.cancel_routine i ≡ some routine
  pub not_pending :
      (completed_status b (s.entries e).major_function i (b.reply_at offset) == status_pending)
      ≡ false

abbrev pub end_offset : Batch → ℕ → ℕ → State → ℕ
end_offset b offset e s =
    (offset + get_event_info_size b (s.entries e).major_function (b.reply_at offset)) % 2 ^ 32

abbrev pub answer : Batch → ℕ → ℕ → ℕ → State → Answer
answer b offset e i s = record {
  entry = e;
  major_function = (s.entries e).major_function;
  irp = i;
  reply = b.reply_at offset;
}

-- A well-formed batch, from an offset on: its replies are in the order of the list, and are laid out one
-- behind the other up to the end of the buffer.
pub data Answers (b : Batch) : ℕ → ℕ → State → List ℕ → List Answer → List ℕ → State → Type 0 where
  other :
      (offset last e : ℕ) (s : State) {es ks : List ℕ} {rs : List Answer} {t : State}
      → last ≤ (b.reply_at offset).serial_number
      → ((s.entries e).serial_number == (b.reply_at offset).serial_number) ≡ false
      → Answers b offset (b.reply_at offset).serial_number s es rs ks t
      → Answers b offset last s (e ∷ es) rs (e ∷ ks) t
  final :
      (offset last e i : ℕ) (s : State) (es : List ℕ)
      → IsFor b offset last e i s
      → end_offset b offset e s ≡ b.buffer_length
      → Answers b offset last s (e ∷ es) (answer b offset e i s ∷ []) es (claimed i s)
  more :
      (offset last e i : ℕ) (s : State) {es ks : List ℕ} {rs : List Answer} {t : State}
      → IsFor b offset last e i s
      → b.allow_ipc_batching ≡ true
      → ((b.reply_at offset).status == status_buffer_overflow) ≡ false
      → end_offset b offset e s + b.info_size ≤ b.buffer_length
      → Answers b
          (end_offset b offset e s)
          (b.reply_at offset).serial_number
          (claimed i s)
          es
          rs
          ks
          t
      → Answers b offset last s (e ∷ es) (answer b offset e i s ∷ rs) ks t

abbrev at : ℕ → ℕ → Search
at offset last = record {
  offset = offset;
  last_serial_number = last;
  result = status_success;
  bad_usage = false;
}

abbrev entries_of : List Answer → List ℕ
entries_of [] = []
entries_of (a ∷ rs) = a.entry ∷ entries_of rs

after_match-more :
    (b : Batch) (reply : Reply) (c : Search)
    → 0 < b.info_size
    → b.allow_ipc_batching ≡ true
    → (reply.status == status_buffer_overflow) ≡ false
    → c.offset + b.info_size ≤ b.buffer_length
    → after_match b reply c ≡ continue c
unfolding after_match
after_match-more b reply c i a o l =
    simp
      (
        a,
        o,
        ltb-false b.buffer_length c.offset (omega (arith, l)),
        ltb-false b.buffer_length (c.offset + b.info_size) l,
        below c.offset b.buffer_length (omega (arith, i, l)),
      )
      refl
  where
    below : (m n : ℕ) → m < n → (m == n) ≡ false
    below m n h = ground arith

search_loop-Answers :
    (b : Batch) (offset last : ℕ) (s : State) {es ks : List ℕ} {rs : List Answer} {t : State}
    → 0 < b.info_size
    → Answers b offset last s es rs ks t
    → (o : ℕ) × (l : ℕ) × (search_loop b es (at offset last) s
        ≡ ok (record { kept = ks; complete = entries_of rs; search = at o l; state = t }))
unfolding search_loop
search_loop-Answers b _ _ _ z (other offset last e s l n h) =
    let (o, m, p) = search_loop-Answers b offset (b.reply_at offset).serial_number s z h in
    (
      o,
      m,
      simp (ltb-false (b.reply_at offset).serial_number last l, n)
          (ap (λ f. map_outcome (keep_entry e) f) p),
    )
search_loop-Answers b _ _ _ z (final offset last e i s es f q) = (
  end_offset b offset e s,
  (b.reply_at offset).serial_number,
  simp
      (
        ltb-false (b.reply_at offset).serial_number last f.sorted,
        (==_iff (s.entries e).serial_number (b.reply_at offset).serial_number).1 f.serial_number,
        f.irp,
        f.not_canceled,
      )
      (rw
        (after_match-last b (b.reply_at offset)
          (at (end_offset b offset e s) (b.reply_at offset).serial_number) q)
        refl),
)
search_loop-Answers b _ _ _ z (more offset last e i s f a v q h) =
    let (o, m, p) =
      search_loop-Answers b (end_offset b offset e s) (b.reply_at offset).serial_number
        (claimed i s) z h in
    (
      o,
      m,
      simp
          (
            ltb-false (b.reply_at offset).serial_number last f.sorted,
            (==_iff (s.entries e).serial_number (b.reply_at offset).serial_number).1
                f.serial_number,
            f.irp,
            f.not_canceled,
          )
          (rw
            (after_match-more b (b.reply_at offset)
              (at (end_offset b offset e s) (b.reply_at offset).serial_number) z a v q)
            (ap (λ f. map_outcome (add_found true e) f) p)),
    )

completed_with-entries :
    (major i : ℕ) (r : Reply) (u : State) → (completed_with major i r u).entries ≡ u.entries
completed_with-entries major i r u = elim (Bool-cases (major == irp_mj_cleanup)) [
  | inl p ↦ simp p refl
  | inr p ↦ simp p refl
]

completed_with-unmount :
    (major i : ℕ) (r : Reply) (u : State)
    → (completed_with major i r u).unmount_pending ≡ u.unmount_pending
completed_with-unmount major i r u = elim (Bool-cases (major == irp_mj_cleanup)) [
  | inl p ↦ simp p refl
  | inr p ↦ simp p refl
]

-- The second loop comes by the same offsets as the first.
complete_loop-Answers :
    (b : Batch) (offset last : ℕ) (s u : State) {es ks : List ℕ} {rs : List Answer} {t : State}
    → 0 < b.info_size
    → offset < b.buffer_length
    → u.entries ≡ s.entries
    → u.unmount_pending ≡ false
    → Answers b offset last s es rs ks t
    → complete_loop b offset (entries_of rs) u ≡ (true, answer_all rs u)
unfolding complete_loop
complete_loop-Answers b _ _ _ u z l n m (other offset last e s k v h) =
    complete_loop-Answers b offset (b.reply_at offset).serial_number s u z l n m h
complete_loop-Answers b _ _ _ u z l n m (final offset last e i s es f q) =
    complete_loop-step b offset (s.entries e).major_function e i [] u m
      (ap (λ g. (g e).major_function) n) (ap (λ g. (g e).irp) n ∙ f.irp) l f.not_pending
complete_loop-Answers b _ _ _ u {rs = _ ∷ rs} z l n m (more offset last e i s f a v q h) =
    complete_loop-step b offset (s.entries e).major_function e i (entries_of rs) u m
      (ap (λ g. (g e).major_function) n) (ap (λ g. (g e).irp) n ∙ f.irp) l f.not_pending
    ∙ complete_loop-Answers b (end_offset b offset e s) (b.reply_at offset).serial_number
        (claimed i s)
        (free_irp_entry e (completed_with (s.entries e).major_function i (b.reply_at offset) u)) z
        (omega (arith, q, z))
        (completed_with-entries (s.entries e).major_function i (b.reply_at offset) u ∙ n)
        (completed_with-unmount (s.entries e).major_function i (b.reply_at offset) u ∙ m) h

Answers-unmount :
    (b : Batch) (offset last : ℕ) (s : State) {es ks : List ℕ} {rs : List Answer} {t : State}
    → Answers b offset last s es rs ks t
    → (t.unmount_pending ≡ s.unmount_pending) × (t.entries ≡ s.entries)
Answers-unmount b _ _ _ (other offset last e s k v h) =
    Answers-unmount b offset (b.reply_at offset).serial_number s h
Answers-unmount b _ _ _ (final offset last e i s es f q) = (refl, refl)
Answers-unmount b _ _ _ (more offset last e i s f a v q h) =
    Answers-unmount b (end_offset b offset e s) (b.reply_at offset).serial_number (claimed i s) h

-- A batch in a buffer of at least one EVENT_INFORMATION, whose replies are in the order of the pending
-- list, each for an IRP that still has its cancel routine and that its completion does not leave with
-- STATUS_PENDING, and laid out one behind the other up to the end of the buffer, where batching is
-- allowed if there is more than one and none but the last has STATUS_BUFFER_OVERFLOW, while the volume
-- is not being unmounted: for every reply in turn the IRP with its serial number is completed with it,
-- behind the cleanup of an IRP_MJ_CLEANUP, and the entry is freed; these entries are removed from the
-- list, the others stay in it, and STATUS_SUCCESS is returned.
pub batch_replies :
    (b : Batch) (s : State) {ks : List ℕ} {rs : List Answer} {t : State}
    → s.unmount_pending ≡ false
    → 0 < b.info_size
    → b.info_size ≤ b.buffer_length
    → Answers b 0 0 s s.pending rs ks t
    → complete_irp b s ≡ ok (status_success, answer_all rs (record t { pending = ks }))
unfolding complete_irp complete_found end_completion
batch_replies b s {ks} {rs} {t} u z l h =
    let (o, m, p) = search_loop-Answers b 0 0 s z h in
    let (v, n) = Answers-unmount b 0 0 s h in
    simp
      (
        u,
        ltb-false b.buffer_length b.info_size l,
        p,
        complete_loop-Answers b 0 0 s (record t { pending = ks }) z (omega (arith, z, l)) n (v ∙ u)
            h,
      )
      refl
