-- ===== src/Hal/BitScan.antt =====
-- hal/riscv64/cpu.h: the positions of the last and the first set bit of a 64-bit word, in C.
-- (The other ports use one machine instruction for each.)
pub mod First
pub mod Order
use phoenix_rtos_kernel.Base.{ℕ, ◌+◌, ◌-◌, ◌*◌, ◌/◌, ◌%◌, ◌^◌, ◌==◌, if◌then◌else◌, bit_and}

-- One step of hal_cpuGetLastBit, `if (!(v & mask)) { lb -= w; v = (v << w); }`
unfoldable pub shift_up : ℕ → ℕ → ℕ × ℕ → ℕ × ℕ
shift_up mask w (lb, v) = if bit_and v mask == 0 then (lb - w, v * 2 ^ w % 2 ^ 64) else (lb, v)

unfoldable pub last_bit_steps : ℕ → ℕ × ℕ
last_bit_steps v = shift_up 0xc000000000000000 2 (
    shift_up 0xf000000000000000 4 (
      shift_up 0xff00000000000000 8
        (shift_up 0xffff000000000000 16 (shift_up 0xffffffff00000000 32 (63, v)))))

unfoldable pub hal_cpu_get_last_bit : ℕ → ℕ
hal_cpu_get_last_bit v =
    let (lb, v') = last_bit_steps v in if bit_and v' 0x8000000000000000 == 0 then lb - 1 else lb

-- One step of hal_cpuGetFirstBit, `if (!(v & mask)) { fb += w; v = (v >> w); }`
unfoldable pub shift_down : ℕ → ℕ → ℕ × ℕ → ℕ × ℕ
shift_down mask w (fb, v) = if bit_and v mask == 0 then (fb + w, v / 2 ^ w) else (fb, v)

unfoldable pub first_bit_steps : ℕ → ℕ × ℕ
first_bit_steps v =
    shift_down 0x3 2 (
      shift_down 0xf 4 (shift_down 0xff 8 (shift_down 0xffff 16 (shift_down 0xffffffff 32 (0, v)))))

unfoldable pub hal_cpu_get_first_bit : ℕ → ℕ
hal_cpu_get_first_bit v =
    let (fb, v') = first_bit_steps v in if bit_and v' 0x1 == 0 then fb + 1 else fb
