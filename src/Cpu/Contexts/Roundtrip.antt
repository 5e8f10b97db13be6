-- ===== src/Cpu/Contexts/Roundtrip.antt =====
-- A context travels from Kernel Memory to the CPU and back unchanged.
use tp_2026_1c_malloc_and_cr.Base.{
  ℕ, ◌+◌, ◌<◌, ◌≤◌, ◌*◌, ◌≡◌, refl, some, true, List, [], ◌∷◌, ◌++◌, length, map, ltb, arith, All,
  ℤ, pos, sum_by,
}
use tp_2026_1c_malloc_and_cr.Messages.{int_bytes, enviar_paquete, recibido, recibir_paquete}
use tp_2026_1c_malloc_and_cr.Messages.Roundtrip.{tamano_campos, empaquetar, int_bytes_lem}
use tp_2026_1c_malloc_and_cr.Messages.Sending.{avance, IsPositivo, recibir-enviar}
use tp_2026_1c_malloc_and_cr.Memory.Types.{Registros, Segmento, Proceso}
use tp_2026_1c_malloc_and_cr.Memory.State.{Km}
use tp_2026_1c_malloc_and_cr.Memory.Processes.{
  buscar_proceso, solicitud_contexto, actualizar_contexto,
}
use tp_2026_1c_malloc_and_cr.Memory.Contexts.{
  campos_registros, patron_de, campos_segmentos, campos_contexto, caso_request_contexto,
  caso_actualizar_contexto,
}
use tp_2026_1c_malloc_and_cr.Memory.Processes.Removal.{solicitud-actualizar}
use tp_2026_1c_malloc_and_cr.Cpu.Mmu.{SegmentoCpu}
use tp_2026_1c_malloc_and_cr.Cpu.Contexts.{
  rondas_int, ContextoCpu, leer_segmentos, caso_context_response, enviar_contexto_a_memoria,
}

-- The registers of 32 bits hold values of 32 bits.
pub record IsRegistros (g : Registros) : Type 0 where
  pub pc : g.pc < 4294967296
  pub eax : g.eax < 4294967296
  pub ebx : g.ebx < 4294967296
  pub ecx : g.ecx < 4294967296
  pub edx : g.edx < 4294967296
  pub si : g.si < 4294967296
  pub di : g.di < 4294967296

abbrev pub IsSegmento32 : Segmento → Type 0
IsSegmento32 s =
    (s.id_segmento < 4294967296)
    × (s.base_global < 4294967296)
    × (s.limite_global < 4294967296)
    × (patron_de s.memory_stick_id < 4294967296)

-- A segment, as the CPU keeps it.
abbrev pub para_cpu : Segmento → SegmentoCpu
para_cpu s = record {
  id_segmento = s.id_segmento;
  base = s.base_global;
  limite = s.limite_global;
  memory_stick_id = patron_de s.memory_stick_id;
}

leer_segmentos-campos :
    (ss : List Segmento)
    → All IsSegmento32 ss
    → leer_segmentos (length ss) (campos_segmentos ss) ≡ some (map para_cpu ss)
unfolding leer_segmentos
leer_segmentos-campos [] v = refl
leer_segmentos-campos (s ∷ ss) ((i, b, l, m), v) = rw (
  int_bytes_lem s.id_segmento i,
  int_bytes_lem s.base_global b,
  int_bytes_lem s.limite_global l,
  int_bytes_lem (patron_de s.memory_stick_id) m,
  leer_segmentos-campos ss v,
)

tamano-segmentos : (ss : List Segmento) → tamano_campos (campos_segmentos ss) ≡ length ss * 32
tamano-segmentos [] = refl
tamano-segmentos (s ∷ ss) = omega (arith, tamano-segmentos ss)

tamano-contexto :
    (pid : ℕ) (g : Registros) (tabla : List Segmento)
    → tamano_campos (campos_contexto pid g tabla) ≡ length tabla * 32 + 92
tamano-contexto pid g tabla = omega (arith, tamano-segmentos tabla)

caso_context_response-campos :
    (codigo : List ℕ) (pid : ℕ) (g : Registros) (tabla : List Segmento)
    → pid < 4294967296
    → IsRegistros g
    → All IsSegmento32 tabla
    → length tabla < 16777216
    → caso_context_response (codigo ∷ campos_contexto pid g tabla)
      ≡ some (record { pid = pid; registros = g; tabla_segmentos = map para_cpu tabla })
unfolding caso_context_response
caso_context_response-campos codigo pid g tabla p v ok l =
    let mide : ltb 13 (length (codigo ∷ campos_contexto pid g tabla)) ≡ true = ground arith in
    let rondas : rondas_int (length tabla) ≡ length tabla = ground arith in
    rw (
      int_bytes_lem pid p,
      int_bytes_lem g.pc v.pc,
      int_bytes_lem g.eax v.eax,
      int_bytes_lem g.ebx v.ebx,
      int_bytes_lem g.ecx v.ecx,
      int_bytes_lem g.edx v.edx,
      int_bytes_lem g.si v.si,
      int_bytes_lem g.di v.di,
      mide,
      int_bytes_lem (length tabla) (omega arith),
      rondas,
      leer_segmentos-campos tabla ok,
    )

-- The context that Kernel Memory answers with for a known process, sent in whatever pieces, arrives at
-- the CPU as the same registers and the same segments. The registers and the fields of the segments
-- hold values of their widths, and there are less than 2²⁴ segments.
pub contexto_recibido :
    (pid : ℕ) (km : Km) (g : Registros) (tabla : List Segmento) (rs : List ℤ) (resto : List ℕ)
    → solicitud_contexto pid km ≡ some (g, tabla)
    → pid < 4294967296
    → IsRegistros g
    → All IsSegmento32 tabla
    → length tabla < 16777216
    → All IsPositivo rs
    → length tabla * 32 + 100 ≤ sum_by avance rs
    → (enviados : List ℕ) × (valores : List (List ℕ)) × (enviar_paquete rs
          (caso_request_contexto pid km)
        ≡ some (pos 0, enviados))
      × (recibir_paquete (enviados ++ resto) ≡ recibido valores resto)
      × (caso_context_response valores
          ≡ some (record { pid = pid; registros = g; tabla_segmentos = map para_cpu tabla }))
unfolding caso_request_contexto
contexto_recibido pid km g tabla rs resto e p v ok l positivos bastan =
    let mide = tamano-contexto pid g tabla in
    let respuesta : caso_request_contexto pid km ≡ empaquetar 27 (campos_contexto pid g tabla) =
      rw (e, caso_request_contexto) in
    let (enviados, sale, llega) =
      recibir-enviar rs 27 (campos_contexto pid g tabla) resto positivos (omega (arith, mide))
        (omega arith) (omega (arith, mide)) in
    (
      enviados,
      int_bytes 27 ∷ campos_contexto pid g tabla,
      rw respuesta sale,
      llega,
      caso_context_response-campos (int_bytes 27) pid g tabla p v ok l,
    )

-- The registers that the CPU sends back, in whatever pieces, arrive at Kernel Memory and are stored for
-- their process: the next request for its context gets them, with the process's own segments. The
-- registers hold values of their widths.
pub contexto_devuelto :
    (c : ContextoCpu) (km : Km) (p : Proceso) (rs : List ℤ) (resto : List ℕ)
    → buscar_proceso c.pid km.procesos ≡ some p
    → c.pid < 4294967296
    → IsRegistros c.registros
    → All IsPositivo rs
    → 92 ≤ sum_by avance rs
    → (enviados : List ℕ) × (valores : List (List ℕ)) × (km' : Km) × (enviar_paquete rs
          (enviar_contexto_a_memoria c)
        ≡ some (pos 0, enviados))
      × (recibir_paquete (enviados ++ resto) ≡ recibido valores resto)
      × (caso_actualizar_contexto valores km ≡ some km')
      × (solicitud_contexto c.pid km' ≡ some (c.registros, p.tabla_segmentos))
unfolding enviar_contexto_a_memoria caso_actualizar_contexto
contexto_devuelto c km p rs resto esta l v positivos bastan =
    let g = c.registros in
    let (enviados, sale, llega) =
      recibir-enviar rs 48 (int_bytes c.pid ∷ campos_registros g) resto positivos bastan
        (omega arith) (omega arith) in
    (
      enviados,
      int_bytes 48 ∷ int_bytes c.pid ∷ campos_registros g,
      actualizar_contexto c.pid g km,
      sale,
      llega,
      rw (
        int_bytes_lem c.pid l,
        int_bytes_lem g.pc v.pc,
        int_bytes_lem g.eax v.eax,
        int_bytes_lem g.ebx v.ebx,
        int_bytes_lem g.ecx v.ecx,
        int_bytes_lem g.edx v.edx,
        int_bytes_lem g.si v.si,
        int_bytes_lem g.di v.di,
      ),
      (solicitud-actualizar c.pid g km p esta).0,
    )
