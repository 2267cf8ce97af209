-- ===== src/Simulator.antt =====
-- cs4400/simulator: the handout's `main`, its loader, and `execute_instruction`. A register holds
-- the bit pattern of a 32-bit `int`, an immediate that of an `int16_t`.
pub mod Laws
use uof_ufall.Base.{
  ℕ, zero, suc, ◌+◌, ◌-◌, ◌*◌, ◌/◌, ◌%◌, ◌^◌, Bool, true, false, not, ◌&&◌, Option, none, some,
  List, [], ◌∷◌, ◌==◌, if◌then◌else◌, ltb, length, get_elem?,
}

-- `enum opcodes`, in the order of instruction.h
pub data Opcode : Type 0 where
  subl addl_reg_reg addl_imm_reg imull shrl movl_reg_reg movl_deref_reg movl_reg_deref : Opcode
  movl_imm_reg cmpl je jl jle jge jbe jmp call ret pushl popl printr readr : Opcode

-- the number of an opcode, where there is one
abbrev pub opcodes : List Opcode
opcodes =
    subl ∷ addl_reg_reg ∷ addl_imm_reg ∷ imull ∷ shrl ∷ movl_reg_reg ∷ movl_deref_reg
    ∷ movl_reg_deref ∷ movl_imm_reg ∷ cmpl ∷ je ∷ jl ∷ jle ∷ jge ∷ jbe ∷ jmp ∷ call ∷ ret ∷ pushl
    ∷ popl ∷ printr ∷ readr ∷ []

-- `instruction_t`; the opcode is a byte, of which 22 values have a name
pub record Instruction : Type 0 where
  pub opcode : ℕ
  pub first_register : ℕ
  pub second_register : ℕ
  pub immediate : ℕ

-- registers, what was printed (last first), and what `scanf` will read
pub record Cpu : Type 0 where
  pub registers : ℕ → ℕ
  pub printed : List ℕ
  pub input : List ℕ

abbrev pub put_register : ℕ → ℕ → Cpu → Cpu
put_register r v c = record c { registers = λ q. if q == r then v else c.registers q }

-- the sign extension of an `int16_t` to an `int`
abbrev pub sign_extend : ℕ → ℕ
sign_extend i = if ltb i (2 ^ 15) then i else i + 2 ^ 32 - 2 ^ 16

-- `scanf("%d", …)` at the end of the input leaves the register alone
abbrev pub read_register : ℕ → List ℕ → Cpu → Cpu
read_register r [] c = c
read_register r (v ∷ rest) c = put_register r v (record c { input = rest })

-- The registers that an instruction reads or writes are in the array of NUM_REGS.
abbrev pub num_regs : ℕ
num_regs = 17

unfoldable pub in_registers : Instruction → Bool
in_registers i = elim (get_elem? opcodes i.opcode) [
  | some subl ↦ ltb i.first_register num_regs
  | some addl_reg_reg ↦ ltb i.first_register num_regs && ltb i.second_register num_regs
  | some printr ↦ ltb i.first_register num_regs
  | some readr ↦ ltb i.first_register num_regs
  | _ ↦ true
]

-- The `switch`, for registers in the array: an opcode that is not handled does nothing.
unfoldable pub execute : Instruction → Cpu → Cpu
execute i c = elim (get_elem? opcodes i.opcode) [
  | some subl ↦
      put_register i.first_register
        ((c.registers i.first_register + 2 ^ 32 - sign_extend i.immediate) % 2 ^ 32) c
  | some addl_reg_reg ↦
      put_register i.second_register
        ((c.registers i.first_register + c.registers i.second_register) % 2 ^ 32) c
  | some printr ↦ record c { printed = c.registers i.first_register ∷ c.printed }
  | some readr ↦ read_register i.first_register c.input c
  | _ ↦ c
]

-- `execute_instruction`: the next program counter and the new state. `none` is an access outside of
-- the instruction array or of the array of registers.
unfoldable pub execute_instruction : ℕ → List Instruction → Cpu → Option (ℕ × Cpu)
unfolding execute in_registers
execute_instruction program_counter instructions c =
    elim (get_elem? instructions (program_counter / 4)) [
      | none ↦ none
      | some i ↦ if in_registers i then some ((program_counter + 4) % 2 ^ 32, execute i c) else none
    ]

-- `decode_instructions` is not written yet: it returns NULL, here `none`.
unfoldable pub decode_instructions : List ℕ → ℕ → Option (List Instruction)
decode_instructions bytes num_instructions = none

-- How the program ends: an error message with status 1, or status 0.
pub data Exit : Type 0 where
  missing_argument unable_to_open invalid_file unable_to_allocate unable_to_read success : Exit

-- what the operating system answers for the file: whether it opens, its size, whether the buffer is
-- allocated, and how many bytes `read` delivers
pub record File : Type 0 where
  pub opens : Bool
  pub size : ℕ
  pub allocates : Bool
  pub num_read : ℕ
  pub contents : List ℕ

unfoldable pub get_file_size : File → ℕ
get_file_size f = f.size % 2 ^ 32

-- `load_file`: the raw bytes, or the error it exits with
unfoldable pub load_file : File → ℕ → List ℕ × Exit
load_file f size =
    if not f.allocates
    then ([], unable_to_allocate)
    else if not (f.num_read == size)
    then ([], unable_to_read)
    else (f.contents, success)

unfoldable pub main : (argc : ℕ) → File → Exit
unfolding get_file_size load_file
main argc f =
    if ltb argc 2
    then missing_argument
    else if not f.opens
    then unable_to_open
    else if not (get_file_size f % 4 == 0)
    then invalid_file
    else (load_file f (get_file_size f)).1
