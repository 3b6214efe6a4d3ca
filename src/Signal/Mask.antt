-- ===== src/Signal/Mask.antt =====
-- `sys_ssetmask`: what a task can block.
use linux.Prelude.{ℕ, ◌^◌, ◌<◌, ◌≡◌, refl, ◌∙◌, ap, not, ◌&&◌, ◌==◌, arith}
use linux.Prelude.Bits.{test_bit, test_bit-bit_and, test_bit-bit_not, test_bit-pow, bit_not}
use linux.Task.{Task}
use linux.Signal.{sys_sgetmask, sys_ssetmask}

-- `sys_ssetmask` returns the mask that `sys_sgetmask` gave before, and the new mask blocks exactly
-- the signals asked for, SIGKILL excepted.
pub sys_ssetmask_bits :
    (newmask : ℕ) (t : Task) (i : ℕ)
    → i < 32
    → ((sys_ssetmask newmask t).0 ≡ sys_sgetmask t)
      × (test_bit (sys_sgetmask (sys_ssetmask newmask t).1) i
          ≡ (test_bit newmask i && not (8 == i)))
unfolding sys_ssetmask sys_sgetmask
sys_ssetmask_bits newmask t i h = (
  refl,
  test_bit-bit_and newmask (bit_not 32 (2 ^ 8)) i
      ∙ ap (λ b. test_bit newmask i && b)
          (test_bit-bit_not 32 (2 ^ 8) i (omega arith) h ∙ ap not (test_bit-pow 8 i)),
)
