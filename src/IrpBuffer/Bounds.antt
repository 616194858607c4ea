-- ===== src/IrpBuffer/Bounds.antt =====
-- dokan-sys/src/dokany/sys/util/irp_buffer_helper.c: the output buffer and the blocks that are written.
use crv_virtual_disk.Prelude.{
  ℕ, ◌+◌, ◌^◌, ◌≤◌, ◌<◌, ◌≡◌, inl, inr, false, List, [], ◌∷◌, ◌++◌, arith, ltb, ◌==◌, ==_iff,
  Bool-cases,
}
use crv_virtual_disk.IrpBuffer.{
  Write, Irp, get_provided_output_size, get_output_buffer, write, prepare_output_with_size,
}

-- The block is inside of the `provided` bytes from `buffer` on.
pub record IsInside (buffer provided : ℕ) (w : Write) : Type 0 where
  pub lower : buffer ≤ w.address
  pub upper : w.address + w.length ≤ buffer + provided

abbrev pub AllInside : ℕ → ℕ → List Write → Type 0
AllInside buffer provided [] = Unit
AllInside buffer provided (w ∷ ws) = IsInside buffer provided w × AllInside buffer provided ws

AllInside-append :
    (buffer provided : ℕ) (ws : List Write) (w : Write)
    → AllInside buffer provided ws
    → IsInside buffer provided w
    → AllInside buffer provided (ws ++ w ∷ [])
AllInside-append buffer provided [] w h k = (k, tt)
AllInside-append buffer provided (v ∷ ws) w h k = (h.0, AllInside-append buffer provided ws w h.1 k)

-- There is an output buffer, the Information is not more than what is provided, and all that was written is in the output buffer.
pub record Bounded (irp : Irp) : Type 0 where
  pub buffer : ¬ (get_output_buffer irp ≡ 0)
  pub information : irp.information ≤ get_provided_output_size irp
  pub provided : get_provided_output_size irp < 2 ^ 32
  pub inside : AllInside (get_output_buffer irp) (get_provided_output_size irp) irp.writes

pub written :
    (irp : Irp) (address length n : ℕ)
    → Bounded irp
    → get_output_buffer irp ≤ address
    → address + length ≤ get_output_buffer irp + get_provided_output_size irp
    → n ≤ get_provided_output_size irp
    → Bounded (record (write address length irp) { information = n })
unfolding get_output_buffer get_provided_output_size
written irp address length n h l u k = record {
  buffer = h.buffer;
  information = k;
  provided = h.provided;
  inside =
      AllInside-append (get_output_buffer irp) (get_provided_output_size irp) irp.writes
        (record { address = address; length = length }) h.inside (record { lower = l; upper = u });
}

pub informed :
    (irp : Irp) (n : ℕ)
    → Bounded irp
    → n ≤ get_provided_output_size irp
    → Bounded (record irp { information = n })
unfolding get_output_buffer get_provided_output_size
informed irp n h k = record {
  buffer = h.buffer;
  information = k;
  provided = h.provided;
  inside = h.inside;
}

pub ltb-le : (a b : ℕ) → ltb a b ≡ false → b ≤ a
ltb-le a b h = ground (arith, h)

-- On an IRP whose output buffer is not null and whose earlier writes are inside of that buffer,
-- whatever its Information, what is provided being a ULONG, PrepareOutputWithSize without the size on
-- failure writes inside of the output buffer only, whatever size is asked for, and leaves an
-- Information that is not more than what is provided.
pub prepare-Bounded :
    (irp : Irp) (size : ℕ)
    → ¬ (get_output_buffer irp ≡ 0)
    → get_provided_output_size irp < 2 ^ 32
    → AllInside (get_output_buffer irp) (get_provided_output_size irp) irp.writes
    → Bounded (prepare_output_with_size irp size false).1
unfolding prepare_output_with_size get_output_buffer get_provided_output_size
prepare-Bounded irp size there ulong inside = elim (Bool-cases (get_output_buffer irp == 0)) [
  | inl z ↦ absurd (there ((==_iff (get_output_buffer irp) 0).0 z))
  | inr z ↦ elim (Bool-cases (ltb (get_provided_output_size irp) size)) [
    | inl l ↦ simp (z, l) empty
    | inr l ↦
        simp (z, l)
          (written (record irp { information = 0 }) (get_output_buffer irp) size size empty
            (omega arith) (omega (arith, ltb-le (get_provided_output_size irp) size l))
            (ltb-le (get_provided_output_size irp) size l))
  ]
]
  where
    empty : Bounded (record irp { information = 0 })
    empty = record { buffer = there; information = omega arith; provided = ulong; inside = inside }
