-- ===== src/Cpu.antt =====
-- cpu/src/instrucciones.c: the register instructions, the MMU and the cutting of memory accesses.
pub mod Registers
pub mod Mmu
pub mod Contexts
pub mod Memory
pub mod Decode
pub mod Cycle
mod Tests
