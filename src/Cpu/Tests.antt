-- ===== src/Cpu/Tests.antt =====
-- The CPU on a register file, a table of two segments and two Memory Sticks.
use tp_2026_1c_malloc_and_cr.Base.{
  ℕ, ◌≡◌, ◌≢◌, refl, inl, inr, Bool-cases, false, none, some, List, [], ◌∷◌, ◌++◌, map, pos, arith,
  leb,
}
use tp_2026_1c_malloc_and_cr.Fragments.{buscar_ms}
use tp_2026_1c_malloc_and_cr.Fragments.Total.{Mapeado, Fragmentado}
use tp_2026_1c_malloc_and_cr.Messages.{enviar_paquete, recibir_paquete, recibido}
use tp_2026_1c_malloc_and_cr.Memory.Types.{Registros, Segmento, Proceso}
use tp_2026_1c_malloc_and_cr.Memory.State.{Km}
use tp_2026_1c_malloc_and_cr.Memory.Processes.{
  registros_en_cero, buscar_proceso, solicitud_contexto,
}
use tp_2026_1c_malloc_and_cr.Memory.Contexts.{caso_request_contexto, caso_actualizar_contexto}
use tp_2026_1c_malloc_and_cr.Cpu.Contexts.{
  ContextoCpu, caso_context_response, enviar_contexto_a_memoria,
}
use tp_2026_1c_malloc_and_cr.Cpu.Contexts.Roundtrip.{
  IsRegistros, para_cpu, contexto_recibido, contexto_devuelto,
}
use tp_2026_1c_malloc_and_cr.Cpu.Registers.{r_ax, r_eax, obtener_registro}
use tp_2026_1c_malloc_and_cr.Cpu.Mmu.{
  SegmentoCpu, MsConectado, mmu_traducir_direccion, base_conectado, limite_conectado, fragmento_cpu,
  fragmentar_acceso_memoria,
}
use tp_2026_1c_malloc_and_cr.Cpu.Mmu.Translation.{
  Traducida, mmu_traducir_direccion-Traducida, fragmentar_acceso_memoria-Fragmentado,
}

abbrev registros : Registros
registros = record registros_en_cero { ax = 250; eax = 300 }

ax : obtener_registro "AX" ≡ some r_ax
unfolding obtener_registro
ax = refl

eax : obtener_registro "EAX" ≡ some r_eax
unfolding obtener_registro
eax = refl

otro_registro : r_ax ≢ r_eax
otro_registro e = absurd (cc)

abbrev tabla : List SegmentoCpu
tabla =
    record { id_segmento = 0; base = 10; limite = 39; memory_stick_id = 0 }
    ∷ record { id_segmento = 1; base = 60; limite = 79; memory_stick_id = 0 }
    ∷ []

mmu_traducir_direccion_example : Traducida 64 70 4 tabla (mmu_traducir_direccion 64 70 4 tabla)
mmu_traducir_direccion_example =
    mmu_traducir_direccion-Traducida 64 70 4 tabla (omega arith) (omega arith) (omega arith)
      ((omega arith, omega arith), ((omega arith, omega arith), tt))

abbrev stick_1 : MsConectado
stick_1 = record { id = 1; socket = 5; base_global = 0; limite_global = 59 }

abbrev stick_2 : MsConectado
stick_2 = record { id = 2; socket = 6; base_global = 60; limite_global = 99 }

conectados_Mapeado :
    Mapeado base_conectado limite_conectado fragmento_cpu 100 (stick_1 ∷ stick_2 ∷ [])
unfolding buscar_ms
conectados_Mapeado = record {
  acotado = omega arith;
  ms_de = λ dir l. elim (Bool-cases (leb dir 59)) [
    | inl baja ↦ (stick_1, ground arith, omega arith, ground arith, omega arith)
    | inr alta ↦ (stick_2, ground arith, ground arith, omega arith, omega arith)
  ];
}

fragmentar_acceso_memoria_example :
    Fragmentado base_conectado limite_conectado fragmento_cpu
      (stick_1 ∷ stick_2 ∷ [])
      50
      30
      0
      (fragmentar_acceso_memoria 50 30 (stick_1 ∷ stick_2 ∷ []))
fragmentar_acceso_memoria_example =
    fragmentar_acceso_memoria-Fragmentado 50 30 100 (stick_1 ∷ stick_2 ∷ []) conectados_Mapeado
      (omega arith) (omega arith)

abbrev segmento : Segmento
segmento = record {
  id_segmento = 1;
  base_global = 10;
  limite_global = 39;
  tamanio = 30;
  memory_stick_id = none;
  en_swap = false;
  bloque_swap = none;
}

abbrev proceso : Proceso
proceso = record {
  pid = 7;
  registros = registros;
  tabla_segmentos = segmento ∷ [];
  suspendido = false;
}

abbrev km : Km
km = record {
  allocation_strategy = "BEST";
  lista_huecos_libres = [];
  mutex_huecos = false;
  procesos = proceso ∷ [];
  paths_por_pid = [];
  memoria_total = 100;
  lista_ms = [];
  lista_dir_global_ms = [];
  avisos = [];
}

registros_validos : IsRegistros registros
registros_validos = record {
  pc = omega arith;
  eax = omega arith;
  ebx = omega arith;
  ecx = omega arith;
  edx = omega arith;
  si = omega arith;
  di = omega arith;
}

pedido : solicitud_contexto 7 km ≡ some (registros, segmento ∷ [])
unfolding solicitud_contexto
pedido = refl

contexto_recibido_example :
    (enviados : List ℕ) × (valores : List (List ℕ)) × (enviar_paquete
        (pos 60 ∷ pos 90 ∷ [])
        (caso_request_contexto 7 km)
      ≡ some (pos 0, enviados))
    × (recibir_paquete (enviados ++ []) ≡ recibido valores [])
    × (caso_context_response valores
        ≡ some (record {
          pid = 7;
          registros = registros;
          tabla_segmentos = map para_cpu (segmento ∷ []);
        }))
contexto_recibido_example =
    contexto_recibido 7 km registros (segmento ∷ []) (pos 60 ∷ pos 90 ∷ []) [] pedido (omega arith)
      registros_validos ((omega arith, omega arith, omega arith, omega arith), tt) (omega arith)
      (omega arith, (omega arith, tt)) (omega arith)

esta : buscar_proceso 7 km.procesos ≡ some proceso
unfolding buscar_proceso
esta = refl

abbrev contexto : ContextoCpu
contexto = record { pid = 7; registros = record registros { pc = 9 }; tabla_segmentos = [] }

contexto_devuelto_example :
    (enviados : List ℕ) × (valores : List (List ℕ)) × (km' : Km) × (enviar_paquete
        (pos 60 ∷ pos 90 ∷ [])
        (enviar_contexto_a_memoria contexto)
      ≡ some (pos 0, enviados))
    × (recibir_paquete (enviados ++ []) ≡ recibido valores [])
    × (caso_actualizar_contexto valores km ≡ some km')
    × (solicitud_contexto 7 km' ≡ some (record registros { pc = 9 }, segmento ∷ []))
contexto_devuelto_example =
    contexto_devuelto contexto km proceso (pos 60 ∷ pos 90 ∷ []) [] esta (omega arith)
      (record {
        pc = omega arith;
        eax = omega arith;
        ebx = omega arith;
        ecx = omega arith;
        edx = omega arith;
        si = omega arith;
        di = omega arith;
      })
      (omega arith, (omega arith, tt)) (omega arith)
