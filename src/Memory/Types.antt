-- ===== src/Memory/Types.antt =====
-- kernel_memory/include/estructuras.h: the structures of Kernel Memory, and the global state of
-- kernel_memory/src/kernel_memory.c and conexiones.c.
use tp_2026_1c_malloc_and_cr.Base.{ℕ, Bool, List, Option}

-- A register file, `t_registros`.
pub record Registros : Type 0 where
  pub pc : ℕ
  pub ax : ℕ
  pub bx : ℕ
  pub cx : ℕ
  pub dx : ℕ
  pub eax : ℕ
  pub ebx : ℕ
  pub ecx : ℕ
  pub edx : ℕ
  pub si : ℕ
  pub di : ℕ

-- `t_segmento`; `bloque_swap` is `none` where the source writes -1.
pub record Segmento : Type 0 where
  pub id_segmento : ℕ
  pub base_global : ℕ
  pub limite_global : ℕ
  pub tamanio : ℕ
  pub memory_stick_id : Option ℕ
  pub en_swap : Bool
  pub bloque_swap : Option ℕ

-- `t_proceso` with the `t_contexto` that it owns.
pub record Proceso : Type 0 where
  pub pid : ℕ
  pub registros : Registros
  pub tabla_segmentos : List Segmento
  pub suspendido : Bool

-- `t_hueco`
pub record Hueco : Type 0 where
  pub base : ℕ
  pub limite : ℕ
  pub tamano : ℕ

-- `t_resultado_hueco`
pub record ResultadoHueco : Type 0 where
  pub base : ℕ
  pub limite : ℕ

-- `t_ms_info`: the fields that the requests to a Memory Stick use.
pub record MsInfo : Type 0 where
  pub id : ℕ
  pub tamano : ℕ
  pub socket : ℕ

-- `t_ms_pos`
pub record MsPos : Type 0 where
  pub id : ℕ
  pub base_global : ℕ
  pub limite_global : ℕ

-- `t_fragmento_memoria`
pub record Fragmento : Type 0 where
  pub ms_id : ℕ
  pub dir_local : ℕ
  pub tamano : ℕ

-- What Kernel Memory sends to the Kernel Scheduler.
pub data Aviso : Type 0 where
  iniciar_compactacion : ℕ → ℕ → ℕ → Aviso
  corrupcion_memoria : Aviso
