-- ===== src/IrpBuffer/Strings.antt =====
-- dokan-sys/src/dokany/sys/util/irp_buffer_helper.c: strings that are put at the end of the output.
use crv_virtual_disk.Prelude.{ℕ, ◌+◌, ◌≤◌, ◌≡◌, ◌⊎◌, Bool, true, false}
use crv_virtual_disk.IrpBuffer.{Irp, get_provided_output_size, get_output_buffer, write}

-- What ExtendOutputBufferBySize gives: more output, or none and at most another Information, which is
-- too large only where it is set again by a string that is cut off.
data Extended (irp : Irp) (more : ℕ) (fill : Bool) : Bool × Irp → Type 0 where
  extended :
      irp.information + more ≤ get_provided_output_size irp
      → Extended irp more fill (
        true,
        record (write (get_output_buffer irp + irp.information) more irp) {
          information = irp.information + more;
        },
      )
  refused :
      (n : ℕ)
      → (n ≤ get_provided_output_size irp) ⊎ (fill ≡ true)
      → Extended irp more fill (false, record irp { information = n })
