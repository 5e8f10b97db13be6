-- ===== src/Memory/State.antt =====
-- The global state of Kernel Memory (kernel_memory.c, conexiones.c, procesos.c) and the accounting of
-- its address space.
use Prim.Native.String.{String}
use tp_2026_1c_malloc_and_cr.Base.{
  ℕ, ◌+◌, ◌≤◌, ◌<◌, ◌≡◌, Bool, true, false, List, ltb, if◌then◌else◌, u32_mod, All, sum_by, add32,
  sub32, arith,
}
use tp_2026_1c_malloc_and_cr.Memory.Types.{Segmento, Proceso, Hueco, MsInfo, MsPos, Aviso}
use tp_2026_1c_malloc_and_cr.Memory.Holes.{limite_de}
use tp_2026_1c_malloc_and_cr.Memory.Holes.Fit.{suma_huecos}
use tp_2026_1c_malloc_and_cr.Memory.Holes.Cover.{cubre, cubre_huecos, IsHueco}

-- `procesos` holds the values of the dictionary of that name, whose keys are their pids;
-- `mutex_huecos` says whether the running thread holds that lock; `avisos` is what was sent to the
-- Kernel Scheduler, oldest first.
pub record Km : Type 0 where
  pub allocation_strategy : String
  pub lista_huecos_libres : List Hueco
  pub mutex_huecos : Bool
  pub procesos : List Proceso
  pub paths_por_pid : List (ℕ × String)
  pub memoria_total : ℕ
  pub lista_ms : List MsInfo
  pub lista_dir_global_ms : List MsPos
  pub avisos : List Aviso

-- A segment that is in swap takes no memory.
abbrev pub cubre_segmento : Bool → Segmento → ℕ → ℕ
cubre_segmento true s a = 0
cubre_segmento false s a = cubre s.base_global s.tamanio a

abbrev pub cubre_tabla : List Segmento → ℕ → ℕ
cubre_tabla ss a = sum_by (λ s. cubre_segmento s.en_swap s a) ss

abbrev pub cubre_procesos : List Proceso → ℕ → ℕ
cubre_procesos ps a = sum_by (λ p. cubre_tabla p.tabla_segmentos a) ps

abbrev pub suma_segmento : Bool → Segmento → ℕ
suma_segmento true s = 0
suma_segmento false s = s.tamanio

abbrev pub suma_tabla : List Segmento → ℕ
suma_tabla ss = sum_by (λ s. suma_segmento s.en_swap s) ss

abbrev pub suma_procesos : List Proceso → ℕ
suma_procesos ps = sum_by (λ p. suma_tabla p.tabla_segmentos) ps

abbrev pub IsEnMemoria : Bool → ℕ → Segmento → Type 0
IsEnMemoria true total s = Unit
IsEnMemoria false total s =
    (s.base_global + s.tamanio ≤ total) × (s.limite_global ≡ limite_de s.base_global s.tamanio)

-- A segment in memory lies inside it, with the limit that its base and size give.
abbrev pub IsSegmento : ℕ → Segmento → Type 0
IsSegmento total s = IsEnMemoria s.en_swap total s

abbrev pub IsProceso : ℕ → Proceso → Type 0
IsProceso total p = All (IsSegmento total) p.tabla_segmentos

-- 1 below the total, else 0.
abbrev pub en_rango : ℕ → ℕ → ℕ
en_rango total a = if ltb a total then 1 else 0

-- The memory map is a partition: every address below the total lies in exactly one free hole or one
-- segment in memory, and no other address lies in any; the sizes add up to the total.
pub record Particion (total : ℕ) (huecos : List Hueco) (procesos : List Proceso) : Type 0 where
  pub acotada : total < u32_mod
  pub huecos_ok : All (IsHueco total) huecos
  pub segmentos_ok : All (IsProceso total) procesos
  pub cubierta : (a : ℕ) → cubre_huecos huecos a + cubre_procesos procesos a ≡ en_rango total a
  pub sumada : suma_huecos huecos + suma_procesos procesos ≡ total

abbrev pub IsValid : Km → Type 0
IsValid km = Particion km.memoria_total km.lista_huecos_libres km.procesos

-- The same counts for one process or segment, for the lemmas on sums.
abbrev pub cubre_proceso : ℕ → Proceso → ℕ
cubre_proceso a p = cubre_tabla p.tabla_segmentos a

abbrev pub suma_proceso : Proceso → ℕ
suma_proceso p = suma_tabla p.tabla_segmentos

abbrev pub cubre_seg : ℕ → Segmento → ℕ
cubre_seg a s = cubre_segmento s.en_swap s a

abbrev pub suma_seg : Segmento → ℕ
suma_seg s = suma_segmento s.en_swap s

-- The size that the removal computes from base and limit, in `uint32_t`.
abbrev pub tamano_real : Segmento → ℕ
tamano_real s = add32 (sub32 s.limite_global s.base_global) 1

-- For a segment in memory it is the segment's size.
pub tamano_real_lem :
    (total : ℕ) (s : Segmento)
    → total < u32_mod
    → IsEnMemoria false total s
    → tamano_real s ≡ s.tamanio
tamano_real_lem total s l ok = omega arith
