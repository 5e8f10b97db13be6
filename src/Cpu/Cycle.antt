-- ===== src/Cpu/Cycle.antt =====
-- cpu/src/cpu.c and instrucciones.c: the system calls, `execute` and the instruction cycle.
pub mod Crash
pub mod Executed
pub mod Return
mod Tests
use Prim.Native.String.{String}
use tp_2026_1c_malloc_and_cr.Base.{
  ℕ, ◌+◌, ◌*◌, ◌%◌, Bool, true, false, Option, none, some, ◌>>=◌, List, [], ◌∷◌, ◌++◌, ◌==◌,
  if◌then◌else◌, add32,
}
use tp_2026_1c_malloc_and_cr.Messages.{int_bytes, Paquete}
use tp_2026_1c_malloc_and_cr.Messages.Roundtrip.{empaquetar}
use tp_2026_1c_malloc_and_cr.Memory.Types.{Registros}
use tp_2026_1c_malloc_and_cr.Cpu.Registers.{
  leer_valor_registro, ejecutar_set, ejecutar_sum, ejecutar_sub, ejecutar_jnz,
}
use tp_2026_1c_malloc_and_cr.Cpu.Mmu.{mmu_traducir_direccion}
use tp_2026_1c_malloc_and_cr.Cpu.Contexts.{ContextoCpu, enviar_contexto_a_memoria}
use tp_2026_1c_malloc_and_cr.Cpu.Memory.{Cpu, ejecutar_mov_in, ejecutar_mov_out, ejecutar_copy_mem}
use tp_2026_1c_malloc_and_cr.Cpu.Decode.{
  Instruccion, noop, set_reg, mov_in, mov_out, sum, sub, jnz, copy_mem, mutex_create, mutex_lock,
  mutex_unlock, mem_alloc, mem_free, sleep, std_out, std_in, init_proc, exit_proc, desconocida,
  Decodificada, decodificar_instruccion, es_syscall,
}

-- What the C library gives: `atoi`, as a 32-bit pattern, the bytes of a text with the 0 that ends it,
-- and the unspecified bytes that COPY_MEM meets.
pub record Entorno : Type 0 where
  pub atoi : String → ℕ
  pub bytes_texto : String → List ℕ
  pub vecinos : ℕ → ℕ
  pub inicial : ℕ → ℕ
  pub string_split : String → List String

-- What the CPU sends to Kernel Memory and to the Kernel Scheduler, oldest first.
pub data Envio : Type 0 where
  a_memoria : Paquete → Envio
  a_scheduler : Paquete → Envio

-- STDOUT and STDIN: the physical address and the size, from the registers that the operands name.
abbrev pub de_memoria : Cpu → ContextoCpu → ℕ → String → String → Option (ℕ × List (List ℕ))
de_memoria cpu c codigo d o =
    let tamanio = leer_valor_registro o c.registros in
    elim (mmu_traducir_direccion cpu.segment_max_size (leer_valor_registro d c.registros) tamanio
      c.tabla_segmentos) [
        | none ↦ none
        | some fisica ↦ some (codigo, int_bytes c.pid ∷ int_bytes fisica ∷ int_bytes tamanio ∷ [])
      ]

-- The packet that a system call sends to the scheduler: `none` where an operand is NULL, `some none`
-- where an address does not translate.
unfoldable pub paquete_syscall :
    Entorno
    → Cpu
    → ContextoCpu
    → Instruccion
    → Option String
    → Option String
    → Option (Option (ℕ × List (List ℕ)))
paquete_syscall en cpu c sleep destino origen = do
  d ← destino
  some (some (16, int_bytes c.pid ∷ int_bytes (en.atoi d) ∷ []))
paquete_syscall en cpu c mutex_create destino origen = do
  d ← destino
  some (some (11, int_bytes c.pid ∷ en.bytes_texto d ∷ []))
paquete_syscall en cpu c mutex_lock destino origen = do
  d ← destino
  some (some (12, int_bytes c.pid ∷ en.bytes_texto d ∷ []))
paquete_syscall en cpu c mutex_unlock destino origen = do
  d ← destino
  some (some (13, int_bytes c.pid ∷ en.bytes_texto d ∷ []))
paquete_syscall en cpu c init_proc destino origen = do
  d ← destino
  o ← origen
  some (some (19, int_bytes c.pid ∷ en.bytes_texto d ∷ int_bytes (en.atoi o) ∷ []))
paquete_syscall en cpu c exit_proc destino origen = some (some (20, int_bytes c.pid ∷ []))
paquete_syscall en cpu c mem_alloc destino origen = do
  d ← destino
  o ← origen
  some (some (14, int_bytes c.pid ∷ int_bytes (en.atoi d) ∷ int_bytes (en.atoi o) ∷ []))
paquete_syscall en cpu c mem_free destino origen = do
  d ← destino
  some (some (15, int_bytes c.pid ∷ int_bytes (en.atoi d) ∷ []))
paquete_syscall en cpu c std_out destino origen = do
  d ← destino
  o ← origen
  some (de_memoria cpu c 17 d o)
paquete_syscall en cpu c std_in destino origen = do
  d ← destino
  o ← origen
  some (de_memoria cpu c 18 d o)
paquete_syscall en cpu c _ destino origen = some none

-- The state while a process runs.
pub record Estado : Type 0 where
  pub contexto : ContextoCpu
  pub cpu : Cpu
  pub envios : List Envio

abbrev pub enviar : Envio → Estado → Estado
enviar e s = record s { envios = s.envios ++ (e ∷ []) }

abbrev pub mandar_syscall : Option (ℕ × List (List ℕ)) → Estado → Bool × Estado
mandar_syscall none s = (false, s)
mandar_syscall (some (codigo, campos)) s = (
  true,
  enviar (a_scheduler (empaquetar codigo campos))
      (enviar (a_memoria (enviar_contexto_a_memoria s.contexto)) s),
)

-- `ejecutar_SYSCALL`: the context goes to Kernel Memory before the call goes to the scheduler.
unfoldable pub ejecutar_syscall :
    Entorno → Instruccion → Option String → Option String → Estado → Option (Bool × Estado)
unfolding paquete_syscall
ejecutar_syscall en i destino origen s = do
  p ← paquete_syscall en s.cpu s.contexto i destino origen
  some (mandar_syscall p s)

abbrev pub con_registros : (Registros → Registros) → Estado → Bool × Estado
con_registros f s =
    (true, record s { contexto = record s.contexto { registros = f s.contexto.registros } })

abbrev pub con_contexto : Estado → Bool × ContextoCpu → Bool × Estado
con_contexto s (bien, c) = (bien, record s { contexto = c })

abbrev pub con_cpu : Estado → Bool × Cpu → Bool × Estado
con_cpu s (bien, cpu) = (bien, record s { cpu = cpu })

-- `execute`: `false` is the result 0; `none` where an operand is NULL or a write goes through NULL.
unfoldable pub execute :
    Entorno → Instruccion → Option String → Option String → Estado → Option (Bool × Estado)
unfolding ejecutar_syscall
execute en noop destino origen s = some (true, s)
execute en set_reg destino origen s = do
  d ← destino
  o ← origen
  some (con_registros (ejecutar_set d (en.atoi o)) s)
execute en sum destino origen s = do
  d ← destino
  o ← origen
  some (con_registros (ejecutar_sum d o) s)
execute en sub destino origen s = do
  d ← destino
  o ← origen
  some (con_registros (ejecutar_sub d o) s)
execute en jnz destino origen s = do
  d ← destino
  o ← origen
  some (con_registros (ejecutar_jnz d (en.atoi o)) s)
execute en mov_in destino origen s = do
  d ← destino
  r ← ejecutar_mov_in d s.contexto s.cpu
  some (con_contexto s r)
execute en mov_out destino origen s = do
  d ← destino
  r ← ejecutar_mov_out d s.contexto s.cpu
  some (con_cpu s r)
execute en copy_mem destino origen s = do
  d ← destino
  r ← ejecutar_copy_mem en.vecinos en.inicial d s.contexto s.cpu
  some (con_cpu s r)
execute en desconocida destino origen s = some (true, s)
execute en syscall destino origen s = ejecutar_syscall en syscall destino origen s

-- What the outside gives for one turn of the cycle: the line that Kernel Memory answers with, or NULL,
-- and what the scheduler's socket holds after the instruction: nothing, the end of the connection, or
-- an interrupt with its code and pid.
pub data Interrupcion : Type 0 where
  no_hay : Interrupcion
  cortada : Interrupcion
  llega : ℕ → ℕ → Interrupcion

pub record Vuelta : Type 0 where
  pub linea : Option String
  pub interrupcion : Interrupcion

-- Whether the cycle goes on.
pub data Resultado : Type 0 where
  caida : Resultado
  sigue : Estado → Resultado
  termina : Estado → Resultado

-- The context to Kernel Memory, and the process back to the scheduler with a reason.
abbrev pub devolver : ℕ → Estado → Estado
devolver motivo s =
    enviar (a_scheduler (empaquetar motivo (int_bytes s.contexto.pid ∷ [])))
      (enviar (a_memoria (enviar_contexto_a_memoria s.contexto)) s)

-- CHECK INTERRUPT. An interrupt for another process is dropped.
unfoldable pub atender_interrupcion : Interrupcion → Estado → Resultado
atender_interrupcion no_hay s = sigue s
atender_interrupcion cortada s = sigue s
atender_interrupcion (llega codigo pid) s =
    if pid == s.contexto.pid then termina (devolver codigo s) else sigue s

-- The rest of a turn, after `execute`; SEG_FAULT is 47.
unfoldable pub despues_de : Instruccion → Interrupcion → Option (Bool × Estado) → Resultado
unfolding atender_interrupcion
despues_de i interrupcion none = caida
despues_de i interrupcion (some (false, s)) = termina (devolver 47 s)
despues_de i interrupcion (some (true, s)) =
    if es_syscall i then termina s else atender_interrupcion interrupcion s

abbrev pub avanzar_pc : Option String → Estado → Estado
avanzar_pc none s = s
avanzar_pc (some linea) s =
    let g = s.contexto.registros in
    record s { contexto = record s.contexto { registros = record g { pc = add32 g.pc 1 } } }

-- One turn of `ciclo_de_instruccion`.
unfoldable pub vuelta_de_ciclo : Entorno → Vuelta → Estado → Resultado
unfolding decodificar_instruccion execute despues_de
vuelta_de_ciclo en v s =
    let d = decodificar_instruccion en.string_split v.linea in
    despues_de d.identificador_operacion v.interrupcion (
      execute en d.identificador_operacion d.argumento_operando_destino d.argumento_operando_origen
        (avanzar_pc v.linea s))

-- The loop, on the turns that the outside gives.
unfoldable pub ciclo_de_instruccion : Entorno → List Vuelta → Estado → Resultado
ciclo_de_instruccion en [] s = sigue s
ciclo_de_instruccion en (v ∷ vs) s = elim (vuelta_de_ciclo en v s) [
  | caida ↦ caida
  | termina s' ↦ termina s'
  | sigue s' ↦ ciclo_de_instruccion en vs s'
]
