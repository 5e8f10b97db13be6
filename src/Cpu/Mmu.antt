-- ===== src/Cpu/Mmu.antt =====
-- cpu/src/instrucciones.c: `mmu_traducir_direccion` and `fragmentar_acceso_memoria`.
pub mod Translation
use tp_2026_1c_malloc_and_cr.Base.{
  ℕ, ◌+◌, ◌/◌, ◌%◌, Option, none, some, List, [], ◌∷◌, ltb, ◌==◌, if◌then◌else◌, add32, sub32,
}
use tp_2026_1c_malloc_and_cr.Fragments.{bytes_iniciales, fragmentar}

-- The segment table of the context, `t_segmento` of cpu.h. `memory_stick_id` is an `int`, as its
-- 32-bit pattern.
pub record SegmentoCpu : Type 0 where
  pub id_segmento : ℕ
  pub base : ℕ
  pub limite : ℕ
  pub memory_stick_id : ℕ

-- `t_ms_conectado`
pub record MsConectado : Type 0 where
  pub id : ℕ
  pub socket : ℕ
  pub base_global : ℕ
  pub limite_global : ℕ

-- `t_fragmento_cpu`
pub record FragmentoCpu : Type 0 where
  pub socket_ms : ℕ
  pub dir_local : ℕ
  pub tamano : ℕ
  pub offset : ℕ

unfoldable pub buscar_segmento_cpu : ℕ → List SegmentoCpu → Option SegmentoCpu
buscar_segmento_cpu id [] = none
buscar_segmento_cpu id (s ∷ ss) = if s.id_segmento == id then some s else buscar_segmento_cpu id ss

-- The physical address, or `none` for a segmentation fault. `segment_max_size` is not 0.
unfoldable pub mmu_traducir_direccion : ℕ → ℕ → ℕ → List SegmentoCpu → Option ℕ
unfolding buscar_segmento_cpu
mmu_traducir_direccion segment_max_size dir_logica tamano tabla =
    let desplazamiento = dir_logica % segment_max_size in
    elim (buscar_segmento_cpu (dir_logica / segment_max_size) tabla) [
      | none ↦ none
      | some s ↦
          if ltb (add32 (sub32 s.limite s.base) 1) (add32 desplazamiento tamano)
          then none
          else some (add32 s.base desplazamiento)
    ]

abbrev pub base_conectado : MsConectado → ℕ
base_conectado m = m.base_global

abbrev pub limite_conectado : MsConectado → ℕ
limite_conectado m = m.limite_global

abbrev pub fragmento_cpu : MsConectado → ℕ → ℕ → ℕ → FragmentoCpu
fragmento_cpu m dir_local n offset = record {
  socket_ms = m.socket;
  dir_local = dir_local;
  tamano = n;
  offset = offset;
}

-- `tamanio_total` is an `int`, never negative here.
unfoldable pub fragmentar_acceso_memoria :
    ℕ → ℕ → List MsConectado → Option (Option (List FragmentoCpu))
fragmentar_acceso_memoria dir tamanio_total conectados =
    fragmentar base_conectado limite_conectado fragmento_cpu (bytes_iniciales tamanio_total) dir
      (bytes_iniciales tamanio_total) 0 conectados
