-- ===== src/Irps/Deadlines.antt =====
-- dokan-sys/src/dokany/sys/timeout.c: the deadline that DokanResetPendingIrpTimeout gives.
use crv_virtual_disk.Prelude.{
  update, ℕ, min, ◌+◌, ◌*◌, ◌/◌, ◌%◌, ◌^◌, ◌≤◌, ◌≡◌, refl, inl, inr, List, [], ◌∷◌, Option, none,
  some, arith, ◌==◌, Bool-cases, if◌then◌else◌,
}
use crv_virtual_disk.Irps.State.{State, Entry}
use crv_virtual_disk.Irps.Register.{update_timeout}
use crv_virtual_disk.Irps.Timeout.{reset_max, capped, reset_first, reset_pending_irp_timeout}

-- The first entry of the list with a serial number.
abbrev pub first_with : ℕ → (ℕ → Entry) → List ℕ → Option ℕ
first_with serial entries [] = none
first_with serial entries (e ∷ es) =
    let rest = first_with serial entries es in
    if (entries e).serial_number == serial then some e else rest

abbrev pub with_deadline : Option ℕ → ℕ → State → State
with_deadline none n s = s
with_deadline (some e) n s = record s {
  entries = update s.entries e (record (s.entries e) { tick_count = n });
}

reset_first-with_deadline :
    (es : List ℕ) (serial n : ℕ) (s : State)
    → reset_first es serial n s ≡ with_deadline (first_with serial s.entries es) n s
unfolding reset_first
reset_first-with_deadline [] serial n s = refl
reset_first-with_deadline (e ∷ es) serial n s =
    elim (Bool-cases ((s.entries e).serial_number == serial)) [
      | inl p ↦ simp p refl
      | inr p ↦ simp p (reset_first-with_deadline es serial n s)
    ]

capped-min : (n : ℕ) → capped n ≡ min n reset_max
capped-min n = ground arith

no_wrap : (n : ℕ) → n ≤ reset_max → n * 1000 * 10 % 2 ^ 32 ≡ n * 10000
no_wrap n h = omega (arith, h)

-- A reset of the timeout changes nothing but the first entry with the serial number, and nothing at all
-- if there is none: its deadline is the tick count plus the ticks of the
-- timeout, of 300 seconds at most, and the product of 32 bits does not wrap around.
pub reset_exact :
    (ticks increment serial timeout : ℕ) (s : State)
    → reset_pending_irp_timeout ticks increment serial timeout s
      ≡ with_deadline
          (first_with serial s.entries s.pending)
          (ticks + min timeout reset_max * 10000 / increment)
          s
unfolding reset_pending_irp_timeout update_timeout
reset_exact ticks increment serial timeout s =
    rw (capped-min timeout, no_wrap (min timeout reset_max) (omega arith))
      (reset_first-with_deadline s.pending serial
        (ticks + min timeout reset_max * 10000 / increment) s)
