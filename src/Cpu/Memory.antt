-- ===== src/Cpu/Memory.antt =====
-- cpu/src/instrucciones.c: MOV_IN, MOV_OUT and COPY_MEM, which read and write the Memory Sticks in
-- fragments. A buffer is a function of the offset.
pub mod Transfer
pub mod Moves
mod Tests
use Prim.Native.String.{String}
use tp_2026_1c_malloc_and_cr.Base.{
  ℕ, ◌+◌, ◌*◌, Bool, true, false, Option, none, some, List, [], ◌∷◌, ltb, get_elem?, if◌then◌else◌,
}
use tp_2026_1c_malloc_and_cr.Messages.{int_bytes}
use tp_2026_1c_malloc_and_cr.Stick.{
  Stick, copiar_de, copiar_a, procesar_lectura, procesar_escritura,
}
use tp_2026_1c_malloc_and_cr.Fragments.Store.{Sticks, poner_stick}
use tp_2026_1c_malloc_and_cr.Cpu.Registers.{
  es_registro_8bits, obtener_registro, escribir, leer_valor_registro,
}
use tp_2026_1c_malloc_and_cr.Cpu.Mmu.{
  MsConectado, FragmentoCpu, mmu_traducir_direccion, fragmentar_acceso_memoria,
}
use tp_2026_1c_malloc_and_cr.Cpu.Contexts.{ContextoCpu}

-- The fields of `t_cpu` that the instructions read, and the sticks at the other ends of the sockets.
pub record Cpu : Type 0 where
  pub segment_max_size : ℕ
  pub sockets_memory_sticks : List MsConectado
  pub sticks : Sticks

abbrev pub tamanio_registro : String → ℕ
tamanio_registro n = if es_registro_8bits n then 1 else 4

-- What the loop of MOV_IN does with an answer: only DATOS_LEIDOS is copied.
abbrev pub copiar_respuesta : ℕ → Option (List ℕ) → (ℕ → ℕ) → ℕ → ℕ
copiar_respuesta offset none buffer = buffer
copiar_respuesta offset (some datos) buffer = copiar_a buffer offset datos

-- The loop of MOV_IN; `none` where a connection is lost.
unfoldable pub leer_fragmentos : Sticks → List FragmentoCpu → (ℕ → ℕ) → Option (ℕ → ℕ)
leer_fragmentos sticks [] buffer = some buffer
leer_fragmentos sticks (f ∷ fs) buffer = elim (sticks f.socket_ms) [
  | none ↦ none
  | some st ↦
      leer_fragmentos sticks fs
        (copiar_respuesta f.offset (procesar_lectura f.dir_local f.tamano st) buffer)
]

abbrev pub aplicar_escritura : ℕ → Option Stick → Sticks → Sticks
aplicar_escritura socket none sticks = sticks
aplicar_escritura socket (some st) sticks = poner_stick socket st sticks

-- The loop of MOV_OUT and the second one of COPY_MEM: `false` where a connection is lost. The answers
-- are not looked at.
unfoldable pub escribir_fragmentos : (ℕ → ℕ) → List FragmentoCpu → Sticks → Bool × Sticks
escribir_fragmentos datos [] sticks = (true, sticks)
escribir_fragmentos datos (f ∷ fs) sticks = elim (sticks f.socket_ms) [
  | none ↦ (false, sticks)
  | some st ↦ escribir_fragmentos datos fs (
      aplicar_escritura f.socket_ms
        (procesar_escritura f.dir_local (copiar_de datos f.offset f.tamano) st) sticks)
]

-- `*(uint32_t*) buffer`
abbrev pub entero_de : (ℕ → ℕ) → ℕ
entero_de b = b 0 + b 1 * 256 + b 2 * 65536 + b 3 * 16777216

-- The value that a register is given, one byte or four.
abbrev pub valor_leido : String → (ℕ → ℕ) → ℕ
valor_leido n b = if es_registro_8bits n then b 0 else entero_de b

-- The bytes of a value, from its address on.
abbrev pub bytes_de : ℕ → ℕ → ℕ
bytes_de valor i = elim (get_elem? (int_bytes valor) i) [ none ↦ 0 | some b ↦ b ]

-- The write to the register; `none` where the pointer is NULL.
abbrev pub asignar : String → ContextoCpu → (ℕ → ℕ) → Option (Bool × ContextoCpu)
asignar n c buffer = elim (obtener_registro n) [
  | none ↦ none
  | some r ↦ some (true, record c { registros = escribir r (valor_leido n buffer) c.registros })
]

-- `false` is the result 0; `none` where the source writes through NULL.
unfoldable pub ejecutar_mov_in : String → ContextoCpu → Cpu → Option (Bool × ContextoCpu)
unfolding leer_fragmentos
ejecutar_mov_in n c cpu =
    let tamanio = tamanio_registro n in
    elim (mmu_traducir_direccion cpu.segment_max_size c.registros.si tamanio c.tabla_segmentos) [
      | none ↦ some (false, c)
      | some fisica ↦ elim (fragmentar_acceso_memoria fisica tamanio cpu.sockets_memory_sticks) [
        | none ↦ none
        | some none ↦ some (false, c)
        | some (some fs) ↦ elim (leer_fragmentos cpu.sticks fs (λ _. 0)) [
          | none ↦ some (false, c)
          | some buffer ↦ asignar n c buffer
        ]
      ]
    ]

abbrev pub con_sticks : Cpu → Bool × Sticks → Option (Bool × Cpu)
con_sticks cpu (bien, sticks) = some (bien, record cpu { sticks = sticks })

-- An unknown register counts as four bytes of 0.
unfoldable pub ejecutar_mov_out : String → ContextoCpu → Cpu → Option (Bool × Cpu)
unfolding escribir_fragmentos
ejecutar_mov_out n c cpu =
    let tamanio = tamanio_registro n in
    elim (mmu_traducir_direccion cpu.segment_max_size c.registros.di tamanio c.tabla_segmentos) [
      | none ↦ some (false, cpu)
      | some fisica ↦ elim (fragmentar_acceso_memoria fisica tamanio cpu.sockets_memory_sticks) [
        | none ↦ none
        | some none ↦ some (false, cpu)
        | some (some fs) ↦
            con_sticks cpu
              (escribir_fragmentos (bytes_de (leer_valor_registro n c.registros)) fs cpu.sticks)
      ]
    ]

-- The `tamano` bytes from element 1 of the answer on: that element is the size, an `int`, and
-- `vecinos` is what stands in memory behind it.
abbrev pub elemento_uno : (ℕ → ℕ) → ℕ → List ℕ
elemento_uno vecinos tamano =
    copiar_de (λ i. if ltb i 4 then bytes_de tamano i else vecinos i) 0 tamano

abbrev pub copiar_elemento_uno : (ℕ → ℕ) → FragmentoCpu → Option (List ℕ) → (ℕ → ℕ) → ℕ → ℕ
copiar_elemento_uno vecinos f none buffer = buffer
copiar_elemento_uno vecinos f (some datos) buffer =
    copiar_a buffer f.offset (elemento_uno vecinos f.tamano)

-- The first loop of COPY_MEM.
unfoldable pub leer_para_copiar : (ℕ → ℕ) → Sticks → List FragmentoCpu → (ℕ → ℕ) → Option (ℕ → ℕ)
leer_para_copiar vecinos sticks [] buffer = some buffer
leer_para_copiar vecinos sticks (f ∷ fs) buffer = elim (sticks f.socket_ms) [
  | none ↦ none
  | some st ↦
      leer_para_copiar vecinos sticks fs
        (copiar_elemento_uno vecinos f (procesar_lectura f.dir_local f.tamano st) buffer)
]

-- The part of COPY_MEM after both translations. The buffer is not initialised: `inicial`.
unfoldable pub copiar_memoria : (ℕ → ℕ) → (ℕ → ℕ) → ℕ → ℕ → ℕ → Cpu → Option (Bool × Cpu)
unfolding leer_para_copiar escribir_fragmentos
copiar_memoria vecinos inicial origen destino tamanio cpu =
    elim (fragmentar_acceso_memoria origen tamanio cpu.sockets_memory_sticks) [
      | none ↦ none
      | some none ↦ some (false, cpu)
      | some (some fs) ↦ elim (leer_para_copiar vecinos cpu.sticks fs inicial) [
        | none ↦ some (false, cpu)
        | some buffer ↦ elim (fragmentar_acceso_memoria destino tamanio cpu.sockets_memory_sticks) [
          | none ↦ none
          | some none ↦ some (false, cpu)
          | some (some fs') ↦ con_sticks cpu (escribir_fragmentos buffer fs' cpu.sticks)
        ]
      ]
    ]

unfoldable pub ejecutar_copy_mem :
    (ℕ → ℕ) → (ℕ → ℕ) → String → ContextoCpu → Cpu → Option (Bool × Cpu)
ejecutar_copy_mem vecinos inicial n c cpu =
    let tamanio = leer_valor_registro n c.registros in
    let max = cpu.segment_max_size in
    elim (mmu_traducir_direccion max c.registros.si tamanio c.tabla_segmentos) [
      | none ↦ some (false, cpu)
      | some origen ↦ elim (mmu_traducir_direccion max c.registros.di tamanio c.tabla_segmentos) [
        | none ↦ some (false, cpu)
        | some destino ↦ copiar_memoria vecinos inicial origen destino tamanio cpu
      ]
    ]
