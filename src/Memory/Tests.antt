-- ===== src/Memory/Tests.antt =====
-- Kernel Memory on a memory of 100 bytes: process 7 has a segment of 30 bytes at 10 and one in swap,
-- and the rest is free.
use tp_2026_1c_malloc_and_cr.Base.{
  ℕ, ◌+◌, ◌≡◌, refl, true, false, none, some, List, [], ◌∷◌, arith, ◌⊎◌, pos, negsuc, ◌≤◌,
}
use tp_2026_1c_malloc_and_cr.Memory.Types.{Registros, Segmento, Proceso, Hueco}
use tp_2026_1c_malloc_and_cr.Memory.Holes.{
  nuevo_hueco, agregar_hueco_ms, buscar_hueco_best_fit, buscar_hueco_worst_fit, buscar_hueco,
  recorrer,
}
use tp_2026_1c_malloc_and_cr.Memory.Holes.Fit.{
  IsEleccion, avisos_esperados, suma_huecos, buscar_hueco_best_fit-IsEleccion,
  buscar_hueco_worst_fit-IsEleccion,
}
use tp_2026_1c_malloc_and_cr.Memory.Holes.Cover.{Absorbe, Unido, agregar_hueco_ms-Absorbe}
use tp_2026_1c_malloc_and_cr.Memory.State.{Km, IsValid, suma_tabla}
use tp_2026_1c_malloc_and_cr.Memory.Processes.{
  buscar_proceso, registros_en_cero, eliminar_proceso, quitar_proceso, solicitud_contexto,
  actualizar_contexto,
}
use tp_2026_1c_malloc_and_cr.Memory.Processes.Removal.{
  eliminar_proceso-IsValid, solicitud-actualizar,
}
use tp_2026_1c_malloc_and_cr.Memory.Segments.{crear_segmento, eliminar_segmento, buscar_segmento}
use tp_2026_1c_malloc_and_cr.Memory.Segments.Accounting.{
  CreaSegmento, crear_segmento-CreaSegmento, crear_segmento_pierde,
}
use tp_2026_1c_malloc_and_cr.Memory.Segments.Removal.{
  km_sin_segmento, eliminar_segmento-IsValid, eliminar_segmento_en_swap,
}
use tp_2026_1c_malloc_and_cr.Base.{Bool-cases, inl, inr, leb}
use tp_2026_1c_malloc_and_cr.Fragments.{buscar_ms}
use tp_2026_1c_malloc_and_cr.Fragments.Total.{Fragmentado}
use tp_2026_1c_malloc_and_cr.Memory.Types.{MsPos}
use tp_2026_1c_malloc_and_cr.Memory.Sticks.{
  posicion, conectar_memory_stick, calcular_dir_local_ms, base_de, limite_de_ms, fragmento_de,
}
use tp_2026_1c_malloc_and_cr.Memory.Sticks.Connection.{Posiciones, conectar_memory_stick-IsValid}
use tp_2026_1c_malloc_and_cr.Memory.Sticks.Translation.{calcular_dir_local_ms-Fragmentado}
use tp_2026_1c_malloc_and_cr.Base.{true}
use tp_2026_1c_malloc_and_cr.Memory.Swap.{buscar_bloques_libres_swap}
use tp_2026_1c_malloc_and_cr.Memory.Swap.Blocks.{Buscados, buscar_bloques_libres_swap-Buscados}

abbrev en_memoria : Segmento
en_memoria = record {
  id_segmento = 1;
  base_global = 10;
  limite_global = 39;
  tamanio = 30;
  memory_stick_id = none;
  en_swap = false;
  bloque_swap = none;
}

abbrev suspendido_en_swap : Segmento
suspendido_en_swap = record {
  id_segmento = 2;
  base_global = 0;
  limite_global = 0;
  tamanio = 16;
  memory_stick_id = none;
  en_swap = true;
  bloque_swap = some 0;
}

abbrev proceso_7 : Proceso
proceso_7 = record {
  pid = 7;
  registros = registros_en_cero;
  tabla_segmentos = en_memoria ∷ suspendido_en_swap ∷ [];
  suspendido = false;
}

abbrev proceso_8 : Proceso
proceso_8 = record {
  pid = 8;
  registros = registros_en_cero;
  tabla_segmentos =
      record {
        id_segmento = 4;
        base_global = 90;
        limite_global = 99;
        tamanio = 10;
        memory_stick_id = none;
        en_swap = false;
        bloque_swap = none;
      }
      ∷ [];
  suspendido = false;
}

abbrev huecos_libres : List Hueco
huecos_libres = nuevo_hueco 0 10 ∷ nuevo_hueco 40 50 ∷ []

abbrev registros_guardados : Registros
registros_guardados = record registros_en_cero { pc = 12; ax = 5 }

abbrev km : Km
km = record {
  allocation_strategy = "BEST";
  lista_huecos_libres = huecos_libres;
  mutex_huecos = false;
  procesos = proceso_7 ∷ proceso_8 ∷ [];
  paths_por_pid = [];
  memoria_total = 100;
  lista_ms = [];
  lista_dir_global_ms = [];
  avisos = [];
}

km-IsValid : IsValid km
km-IsValid = record {
  acotada = omega arith;
  huecos_ok = ((omega arith, refl), ((omega arith, refl), tt));
  segmentos_ok = (((omega arith, refl), (tt, tt)), (((omega arith, refl), tt), tt));
  cubierta = λ a. ground arith;
  sumada = refl;
}

libre : km.mutex_huecos ≡ false
libre = refl

buscar_proceso_7 : buscar_proceso 7 km.procesos ≡ some proceso_7
unfolding buscar_proceso
buscar_proceso_7 = refl

buscar_proceso_8 : buscar_proceso 8 km.procesos ≡ some proceso_8
unfolding buscar_proceso
buscar_proceso_8 = refl

buscar_proceso_9 : buscar_proceso 9 km.procesos ≡ none
unfolding buscar_proceso
buscar_proceso_9 = refl

segmento_1 : buscar_segmento 1 0 proceso_7.tabla_segmentos ≡ some (0, en_memoria)
unfolding buscar_segmento
segmento_1 = refl

segmento_2 : buscar_segmento 2 0 proceso_7.tabla_segmentos ≡ some (1, suspendido_en_swap)
unfolding buscar_segmento
segmento_2 = refl

hueco_para_20 :
    (buscar_hueco km.allocation_strategy 20 9 3 km.lista_huecos_libres).0
    ≡ some (1, nuevo_hueco 40 50)
unfolding buscar_hueco buscar_hueco_best_fit recorrer
hueco_para_20 = refl

crear_segmento_example : CreaSegmento 7 3 20 km (crear_segmento 7 3 20 km)
crear_segmento_example =
    crear_segmento-CreaSegmento 7 3 20 km proceso_7 km-IsValid libre buscar_proceso_7

crear_segmento_pierde_example :
    (km' : Km) × (crear_segmento 9 3 20 km ≡ some (negsuc 1, km')) × ¬ IsValid km'
crear_segmento_pierde_example =
    crear_segmento_pierde 9 3 20 km 1 (nuevo_hueco 40 50) km-IsValid libre (omega arith)
      buscar_proceso_9 hueco_para_20

eliminar_segmento_example :
    (eliminar_segmento 7 1 km
      ≡ some
          (pos 1, km_sin_segmento 7 1 km proceso_7 0 en_memoria libre buscar_proceso_7 segmento_1))
    × IsValid (km_sin_segmento 7 1 km proceso_7 0 en_memoria libre buscar_proceso_7 segmento_1)
    × (suma_huecos
          (km_sin_segmento 7 1 km proceso_7 0 en_memoria libre buscar_proceso_7
            segmento_1).lista_huecos_libres
        ≡ suma_huecos km.lista_huecos_libres + en_memoria.tamanio)
eliminar_segmento_example =
    eliminar_segmento-IsValid 7 1 km proceso_7 0 en_memoria libre buscar_proceso_7 segmento_1
      km-IsValid refl

eliminar_segmento_en_swap_example :
    (eliminar_segmento 7 2 km
      ≡ some (
        pos 1,
        km_sin_segmento 7 2 km proceso_7 1 suspendido_en_swap libre buscar_proceso_7 segmento_2,
      ))
    × ¬ IsValid
        (km_sin_segmento 7 2 km proceso_7 1 suspendido_en_swap libre buscar_proceso_7 segmento_2)
eliminar_segmento_en_swap_example =
    eliminar_segmento_en_swap 7 2 km proceso_7 1 suspendido_en_swap libre buscar_proceso_7
      segmento_2 km-IsValid refl refl refl

eliminar_proceso_example :
    (km' : Km) × (eliminar_proceso 8 km ≡ some (pos 1, km'))
    × IsValid km'
    × (km'.procesos ≡ quitar_proceso 8 km.procesos)
    × (suma_huecos km'.lista_huecos_libres
        ≡ suma_huecos km.lista_huecos_libres + suma_tabla proceso_8.tabla_segmentos)
eliminar_proceso_example =
    eliminar_proceso-IsValid 8 km proceso_8 libre buscar_proceso_8 km-IsValid (refl, tt)

solicitud-actualizar_example :
    (solicitud_contexto 7 (actualizar_contexto 7 registros_guardados km)
      ≡ some (registros_guardados, proceso_7.tabla_segmentos))
    × ((otro : ℕ)
        → (otro ≡ 7)
          ⊎ (solicitud_contexto otro (actualizar_contexto 7 registros_guardados km)
              ≡ solicitud_contexto otro km))
solicitud-actualizar_example =
    solicitud-actualizar 7 registros_guardados km proceso_7 buscar_proceso_7

best_fit_example :
    let (elegido, avisos) = buscar_hueco_best_fit 20 7 3 huecos_libres in
    IsEleccion ◌≤◌ 20 huecos_libres elegido
    × (avisos ≡ avisos_esperados 20 7 3 huecos_libres elegido)
best_fit_example = buscar_hueco_best_fit-IsEleccion 20 7 3 huecos_libres (omega arith)

worst_fit_example :
    let (elegido, avisos) = buscar_hueco_worst_fit 5 7 3 huecos_libres in
    IsEleccion (λ x y. y ≤ x) 5 huecos_libres elegido
    × (avisos ≡ avisos_esperados 5 7 3 huecos_libres elegido)
worst_fit_example = buscar_hueco_worst_fit-IsEleccion 5 7 3 huecos_libres (omega arith)

agregar_hueco_ms_example :
    Absorbe 100 (omega arith) 90 10 huecos_libres (agregar_hueco_ms 90 10 huecos_libres)
    × Unido 100 (omega arith) 90 10 huecos_libres (agregar_hueco_ms 90 10 huecos_libres)
agregar_hueco_ms_example =
    agregar_hueco_ms-Absorbe 100 (omega arith) 90 10 huecos_libres
      ((omega arith, refl), ((omega arith, refl), tt)) (omega arith)

abbrev posiciones : List MsPos
posiciones = posicion 0 60 1 ∷ posicion 60 40 2 ∷ []

posiciones_de_prueba : Posiciones 100 posiciones
unfolding buscar_ms
posiciones_de_prueba = (
  record {
    acotado = omega arith;
    ms_de = λ dir l. elim (Bool-cases (leb dir 59)) [
      | inl baja ↦ (posicion 0 60 1, ground arith, omega arith, ground arith, omega arith)
      | inr alta ↦ (posicion 60 40 2, ground arith, ground arith, omega arith, omega arith)
    ];
  },
  (omega arith, (omega arith, tt)),
)

conectar_memory_stick_example :
    let km' = conectar_memory_stick 3 50 8 (record km { lista_dir_global_ms = posiciones }) in
    (km'.memoria_total ≡ 100 + 50)
    × IsValid km'
    × Posiciones km'.memoria_total km'.lista_dir_global_ms
conectar_memory_stick_example =
    conectar_memory_stick-IsValid 3 50 8 (record km { lista_dir_global_ms = posiciones }) km-IsValid
      posiciones_de_prueba (omega arith) (omega arith)

calcular_dir_local_ms_example :
    Fragmentado base_de limite_de_ms fragmento_de posiciones 50 30 0
      (calcular_dir_local_ms 50 30 posiciones)
calcular_dir_local_ms_example =
    calcular_dir_local_ms-Fragmentado 50 30 100 posiciones posiciones_de_prueba (omega arith)
      (omega arith)

buscar_bloques_libres_swap_example :
    Buscados 2
      (true ∷ false ∷ true ∷ false ∷ false ∷ [])
      (buscar_bloques_libres_swap 2 (true ∷ false ∷ true ∷ false ∷ false ∷ []))
buscar_bloques_libres_swap_example =
    buscar_bloques_libres_swap-Buscados 2 (true ∷ false ∷ true ∷ false ∷ false ∷ [])
