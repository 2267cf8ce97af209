-- ===== src/Simulator/Laws.antt =====
-- The simulator's step.
use uof_ufall.Base.{ℕ, ◌≡◌, ◌≢◌, arith}
use uof_ufall.Simulator.{Instruction, Cpu, execute}

-- An instruction leaves every register that it does not name as it is.
pub execute-frame :
    (i : Instruction) (c : Cpu) (r : ℕ)
    → r ≢ i.first_register
    → r ≢ i.second_register
    → (execute i c).registers r ≡ c.registers r
unfolding execute
execute-frame i c r ne ne' = ground arith
