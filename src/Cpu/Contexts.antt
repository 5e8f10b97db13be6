-- ===== src/Cpu/Contexts.antt =====
-- cpu/src/cpu.c: the context of a process, as the CPU receives it in `escuchar_kernel_memory` and sends
-- it back in `enviar_contexto_a_memoria`.
pub mod Roundtrip
use tp_2026_1c_malloc_and_cr.Base.{
  ℕ, zero, suc, ◌<◌, Option, none, some, List, [], ◌∷◌, length, drop, ltb, leb, if◌then◌else◌,
  ◌>>=◌,
}
use tp_2026_1c_malloc_and_cr.Messages.{int_bytes, int_negativo, Paquete}
use tp_2026_1c_malloc_and_cr.Messages.Roundtrip.{empaquetar}
use tp_2026_1c_malloc_and_cr.Memory.Types.{Registros}
use tp_2026_1c_malloc_and_cr.Memory.Contexts.{leer_u32, leer_registros, campos_registros}
use tp_2026_1c_malloc_and_cr.Cpu.Mmu.{SegmentoCpu}

-- `t_contexto` of cpu.h
pub record ContextoCpu : Type 0 where
  pub pid : ℕ
  pub registros : Registros
  pub tabla_segmentos : List SegmentoCpu

-- The loop over the segments, on the elements from `offset` on.
unfoldable pub leer_segmentos : ℕ → List (List ℕ) → Option (List SegmentoCpu)
leer_segmentos zero elementos = some []
leer_segmentos (suc n) elementos = do
  id ← leer_u32 0 elementos
  base ← leer_u32 1 elementos
  limite ← leer_u32 2 elementos
  ms ← leer_u32 3 elementos
  ss ← leer_segmentos n (drop 4 elementos)
  some (record { id_segmento = id; base = base; limite = limite; memory_stick_id = ms } ∷ ss)

-- `i < cantidad_segmentos` in `int`
abbrev pub rondas_int : ℕ → ℕ
rondas_int n = if leb int_negativo n then 0 else n

abbrev pub tabla_recibida : List (List ℕ) → Option (List SegmentoCpu)
tabla_recibida paquete = do
  cantidad ← leer_u32 13 paquete
  leer_segmentos (rondas_int cantidad) (drop 14 paquete)

-- The case CONTEXT_RESPONSE; `none` where the packet has too few values.
unfoldable pub caso_context_response : List (List ℕ) → Option ContextoCpu
unfolding leer_segmentos
caso_context_response paquete = do
  pid ← leer_u32 1 paquete
  g ← leer_registros paquete
  ss ← if ltb 13 (length paquete) then tabla_recibida paquete else some []
  some (record { pid = pid; registros = g; tabla_segmentos = ss })

-- The packet ACTUALIZAR_CONTEXTO (48).
unfoldable pub enviar_contexto_a_memoria : ContextoCpu → Paquete
enviar_contexto_a_memoria c = empaquetar 48 (int_bytes c.pid ∷ campos_registros c.registros)
