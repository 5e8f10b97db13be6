-- ===== src/Cpu/Registers.antt =====
-- cpu/src/instrucciones.c: registers by name, and the instructions SET, SUM, SUB and JNZ. The register
-- file is that of kernel_memory, whose `t_registros` cpu.h repeats. A pointer to a register is its
-- constructor.
pub mod Arithmetic
use Prim.Native.String.{String}
use text.Mathlib.Text.{◌==◌ as str_eq}
use tp_2026_1c_malloc_and_cr.Base.{
  ℕ, ◌+◌, ◌-◌, ◌%◌, Bool, true, false, ◌||◌, Option, none, some, ◌==◌, if◌then◌else◌, u8_mod, add32,
  sub32,
}
use tp_2026_1c_malloc_and_cr.Memory.Types.{Registros}

pub data Registro : Type 0 where
  r_ax : Registro
  r_bx : Registro
  r_cx : Registro
  r_dx : Registro
  r_eax : Registro
  r_ebx : Registro
  r_ecx : Registro
  r_edx : Registro
  r_si : Registro
  r_di : Registro
  r_pc : Registro

unfoldable pub es_registro_8bits : String → Bool
es_registro_8bits n = str_eq n "AX" || (str_eq n "BX" || (str_eq n "CX" || str_eq n "DX"))

unfoldable pub obtener_registro : String → Option Registro
obtener_registro n =
    if str_eq n "AX"
    then some r_ax
    else (if str_eq n "BX"
        then some r_bx
        else (if str_eq n "CX"
            then some r_cx
            else (if str_eq n "DX"
                then some r_dx
                else (if str_eq n "EAX"
                    then some r_eax
                    else (if str_eq n "EBX"
                        then some r_ebx
                        else (if str_eq n "ECX"
                            then some r_ecx
                            else (if str_eq n "EDX"
                                then some r_edx
                                else (if str_eq n "SI"
                                    then some r_si
                                    else (if str_eq n "DI"
                                        then some r_di
                                        else (if str_eq n "PC" then some r_pc else none))))))))))

-- Reads and writes through the pointer.
abbrev pub leer : Registro → Registros → ℕ
leer r_ax g = g.ax
leer r_bx g = g.bx
leer r_cx g = g.cx
leer r_dx g = g.dx
leer r_eax g = g.eax
leer r_ebx g = g.ebx
leer r_ecx g = g.ecx
leer r_edx g = g.edx
leer r_si g = g.si
leer r_di g = g.di
leer r_pc g = g.pc

abbrev pub escribir : Registro → ℕ → Registros → Registros
escribir r_ax v g = record g { ax = v }
escribir r_bx v g = record g { bx = v }
escribir r_cx v g = record g { cx = v }
escribir r_dx v g = record g { dx = v }
escribir r_eax v g = record g { eax = v }
escribir r_ebx v g = record g { ebx = v }
escribir r_ecx v g = record g { ecx = v }
escribir r_edx v g = record g { edx = v }
escribir r_si v g = record g { si = v }
escribir r_di v g = record g { di = v }
escribir r_pc v g = record g { pc = v }

unfoldable pub leer_valor_registro : String → Registros → ℕ
leer_valor_registro n g = elim (obtener_registro n) [ none ↦ 0 | some r ↦ leer r g ]

unfoldable pub ejecutar_set : String → ℕ → Registros → Registros
ejecutar_set destino valor g = elim (obtener_registro destino) [
  | none ↦ g
  | some r ↦ escribir r (if es_registro_8bits destino then valor % u8_mod else valor) g
]

unfoldable pub ejecutar_sum : String → String → Registros → Registros
ejecutar_sum destino origen g =
    let valor = leer_valor_registro origen g in
    elim (obtener_registro destino) [
      | none ↦ g
      | some r ↦
          escribir r
            (if es_registro_8bits destino
              then (leer r g + valor % u8_mod) % u8_mod
              else add32 (leer r g) valor)
            g
    ]

unfoldable pub ejecutar_sub : String → String → Registros → Registros
ejecutar_sub destino origen g =
    let valor = leer_valor_registro origen g in
    elim (obtener_registro destino) [
      | none ↦ g
      | some r ↦
          escribir r
            (if es_registro_8bits destino
              then (leer r g + u8_mod - valor % u8_mod) % u8_mod
              else sub32 (leer r g) valor)
            g
    ]

unfoldable pub ejecutar_jnz : String → ℕ → Registros → Registros
unfolding leer_valor_registro
ejecutar_jnz evaluado nueva_instruccion g =
    if leer_valor_registro evaluado g == 0 then g else record g { pc = nueva_instruccion }
