-- ===== src/Memory/Suspension/Tests.antt =====
-- A suspension, a return from Swap for which there is no room, and a segment of three blocks in Swap.
use tp_2026_1c_malloc_and_cr.Base.{
  ℕ, Bool, get_elem?, ◌+◌, ◌≡◌, refl, true, false, some, List, [], ◌∷◌, pos, arith,
}
use tp_2026_1c_malloc_and_cr.Memory.Types.{Segmento, Proceso}
use tp_2026_1c_malloc_and_cr.Memory.Holes.{
  nuevo_hueco, buscar_hueco_silencioso, consumir_hueco, recorrer,
}
use tp_2026_1c_malloc_and_cr.Memory.State.{Km, IsValid}
use tp_2026_1c_malloc_and_cr.Memory.Processes.{buscar_proceso}
use tp_2026_1c_malloc_and_cr.Memory.Transfer.Tests.{
  conexiones, posiciones-Mapeado, conexiones-IsConectada,
}
use tp_2026_1c_malloc_and_cr.Memory.Compaction.Tests.{
  km, km-IsValid, proceso_8, buscar_proceso_8, segmento_de,
}
use tp_2026_1c_malloc_and_cr.Memory.Suspension.{
  Sistema, Reserva, segmento_en_swap, reservar, suspender_proceso_memoria,
  desuspender_proceso_memoria,
}
use tp_2026_1c_malloc_and_cr.Stick.{copiar_de}
use tp_2026_1c_malloc_and_cr.Memory.Suspension.{
  bloques_necesarios, escribir_segmento_en_swap, leer_segmento_de_swap,
}
use tp_2026_1c_malloc_and_cr.Memory.Suspension.Roundtrip.{leer_segmento_de_swap-escribir}
use tp_2026_1c_malloc_and_cr.Memory.Suspension.Returned.{desuspender_proceso_memoria-IsValid}
use tp_2026_1c_malloc_and_cr.Memory.Suspension.Suspended.{suspender_proceso_memoria-IsValid}
use tp_2026_1c_malloc_and_cr.Memory.Suspension.Round.{Suerte}
use tp_2026_1c_malloc_and_cr.Memory.Suspension.Rollback.{
  vuelta_atras, desuspender_proceso_memoria-vuelta_atras,
}

abbrev sistema : Sistema
sistema = record {
  km = km;
  sticks = conexiones;
  swap_block_size = 4;
  bitmap_swap = true ∷ false ∷ false ∷ false ∷ false ∷ [];
  archivo = λ i. 0;
}

suspender_proceso_memoria_example :
    (st' : Sistema) × (q : Proceso) × (suspender_proceso_memoria (λ i. 3) 8 sistema
      ≡ some (pos 1, st'))
    × IsValid st'.km
    × (buscar_proceso 8 st'.km.procesos ≡ some q)
    × (q.suspendido ≡ true)
    × ((i : ℕ) (s : Segmento)
        → get_elem? proceso_8.tabla_segmentos i ≡ some s
        → (s' : Segmento) × (get_elem? q.tabla_segmentos i ≡ some s')
          × Suerte 4 st'.bitmap_swap s.en_swap s s')
suspender_proceso_memoria_example =
    suspender_proceso_memoria-IsValid (λ i. 3) 8 proceso_8 sistema km-IsValid refl
      (posiciones-Mapeado, (omega arith, (omega arith, tt))) conexiones-IsConectada buscar_proceso_8
      refl ((omega arith, omega arith), tt) (omega arith) (omega arith, tt)

abbrev guardado_1 : Segmento
guardado_1 = segmento_en_swap 0 (segmento_de 0 0 15)

abbrev guardado_2 : Segmento
guardado_2 = segmento_en_swap 4 (segmento_de 1 0 15)

abbrev suspendido : Proceso
suspendido = record proceso_8 { tabla_segmentos = guardado_1 ∷ guardado_2 ∷ []; suspendido = true }

abbrev con_un_hueco : Sistema
con_un_hueco = record sistema {
  km = record km { lista_huecos_libres = nuevo_hueco 0 20 ∷ []; procesos = suspendido ∷ [] };
}

abbrev tras_reservar : Km
tras_reservar = record con_un_hueco.km { lista_huecos_libres = nuevo_hueco 15 5 ∷ [] }

abbrev reservado : List Reserva
reservado = record { base = 0; tamanio = 15; indice = 0; segmento = guardado_1 } ∷ []

suspendido_esta : buscar_proceso 8 con_un_hueco.km.procesos ≡ some suspendido
unfolding buscar_proceso
suspendido_esta = refl

no_entra :
    reservar 0 suspendido.tabla_segmentos [] con_un_hueco.km ≡ (false, reservado, tras_reservar)
unfolding reservar buscar_hueco_silencioso recorrer consumir_hueco
no_entra = refl

desuspender_proceso_memoria_example :
    desuspender_proceso_memoria 8 con_un_hueco
    ≡ vuelta_atras reservado (record con_un_hueco { km = tras_reservar })
desuspender_proceso_memoria_example =
    desuspender_proceso_memoria-vuelta_atras 8 suspendido reservado con_un_hueco tras_reservar
      suspendido_esta refl no_entra

leer_segmento_de_swap_example :
    (archivo : ℕ → ℕ) × (leido : ℕ → ℕ) × (bitmap : List Bool) × (escribir_segmento_en_swap 4
        (λ i. 3)
        (λ i. 50 + i)
        10
        1
        (bloques_necesarios 4 10)
        (λ i. 0)
      ≡ some archivo)
    × (leer_segmento_de_swap 4 (λ i. 0) 10 1 (bloques_necesarios 4 10) archivo []
        ≡ some (leido, bitmap))
    × (copiar_de leido 0 10 ≡ copiar_de (λ i. 50 + i) 0 10)
leer_segmento_de_swap_example =
    leer_segmento_de_swap-escribir 4 10 1 (λ i. 3) (λ i. 50 + i) (λ i. 0) (λ i. 0) [] (omega arith)
      (omega arith) (omega arith) (omega arith)

abbrev con_dos_huecos : Sistema
con_dos_huecos = record sistema {
  km = record km {
    lista_huecos_libres = nuevo_hueco 0 60 ∷ nuevo_hueco 60 40 ∷ [];
    procesos = suspendido ∷ [];
  };
}

con_dos_huecos-IsValid : IsValid con_dos_huecos.km
con_dos_huecos-IsValid = record {
  acotada = omega arith;
  huecos_ok = ((omega arith, refl), ((omega arith, refl), tt));
  segmentos_ok = ((tt, (tt, tt)), tt);
  cubierta = λ a. ground arith;
  sumada = refl;
}

entra_todo : (reservar 0 suspendido.tabla_segmentos [] con_dos_huecos.km).0 ≡ true
unfolding reservar buscar_hueco_silencioso recorrer consumir_hueco
entra_todo = refl

vuelve_example :
    (st' : Sistema) × (q : Proceso) × (desuspender_proceso_memoria 8 con_dos_huecos
      ≡ some (pos 1, st'))
    × IsValid st'.km
    × (buscar_proceso 8 st'.km.procesos ≡ some q)
    × (q.suspendido ≡ false)
vuelve_example =
    desuspender_proceso_memoria-IsValid 8 suspendido con_dos_huecos con_dos_huecos-IsValid
      (posiciones-Mapeado, (omega arith, (omega arith, tt))) conexiones-IsConectada suspendido_esta
      refl (omega arith, (omega arith, tt)) entra_todo
