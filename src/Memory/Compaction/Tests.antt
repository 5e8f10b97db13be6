-- ===== src/Memory/Compaction/Tests.antt =====
-- A compaction of two segments on two sticks, with the insertion sort for `list_sort`.
use tp_2026_1c_malloc_and_cr.Base.{
  ℕ, ◌+◌, ◌≤◌, ◌≡◌, refl, inl, inr, Bool, false, ltb, if◌then◌else◌, Bool-cases, some, none, List,
  [], ◌∷◌, All, All-imp, sum_by, pos, arith,
}
use tp_2026_1c_malloc_and_cr.Memory.Types.{Segmento, Proceso}
use tp_2026_1c_malloc_and_cr.Memory.Holes.{nuevo_hueco, limite_de}
use tp_2026_1c_malloc_and_cr.Memory.Processes.{registros_en_cero, buscar_proceso}
use tp_2026_1c_malloc_and_cr.Memory.State.{Km, IsValid}
use tp_2026_1c_malloc_and_cr.Memory.Segments.Accounting.{SegmentoCreado}
use tp_2026_1c_malloc_and_cr.Memory.Transfer.Flat.{byte_global}
use tp_2026_1c_malloc_and_cr.Memory.Transfer.Tests.{
  posiciones, registrados, conexiones, posiciones-Mapeado, conexiones-IsConectada,
}
use tp_2026_1c_malloc_and_cr.Memory.Compaction.{
  Referencia, Orden, Avance, segmentos_de_procesos, iniciar_compactacion,
}
use tp_2026_1c_malloc_and_cr.Memory.Compaction.Sorted.{Ordenada, IsListSort}
use tp_2026_1c_malloc_and_cr.Memory.Compaction.Ending.{Conserva, compacto}
use tp_2026_1c_malloc_and_cr.Memory.Compaction.Result.{iniciar_compactacion-Conserva}

abbrev insertar : (Referencia → Referencia → Bool) → Referencia → List Referencia → List Referencia
insertar menor x [] = x ∷ []
insertar menor x (y ∷ ys) =
    let resto = insertar menor x ys in if menor y x then y ∷ resto else x ∷ y ∷ ys

abbrev ordenar : Orden
ordenar menor [] = []
ordenar menor (x ∷ xs) = insertar menor x (ordenar menor xs)

sum_by-insertar :
    (menor : Referencia → Referencia → Bool) (f : Referencia → ℕ) (x : Referencia)
    (ys : List Referencia)
    → sum_by f (insertar menor x ys) ≡ f x + sum_by f ys
sum_by-insertar menor f x [] = refl
sum_by-insertar menor f x (y ∷ ys) = elim (Bool-cases (menor y x)) [
  | inl antes ↦ rw antes (omega (arith, sum_by-insertar menor f x ys))
  | inr otro ↦ rw otro
]

sum_by-ordenar :
    (menor : Referencia → Referencia → Bool) (xs : List Referencia) (f : Referencia → ℕ)
    → sum_by f (ordenar menor xs) ≡ sum_by f xs
sum_by-ordenar menor [] f = refl
sum_by-ordenar menor (x ∷ xs) f =
    omega (arith, sum_by-insertar menor f x (ordenar menor xs), sum_by-ordenar menor xs f)

insertar-All :
    (menor : Referencia → Referencia → Bool) (P : Referencia → Type 0) (x : Referencia)
    (ys : List Referencia)
    → P x
    → All P ys
    → All P (insertar menor x ys)
insertar-All menor P x [] p h = (p, tt)
insertar-All menor P x (y ∷ ys) p (q, h) = elim (Bool-cases (menor y x)) [
  | inl antes ↦ rw antes (q, insertar-All menor P x ys p h)
  | inr otro ↦ rw otro (p, (q, h))
]

module _ (clave : Referencia → ℕ) where
  abbrev por_clave : Referencia → Referencia → Bool
  por_clave a b = ltb (clave a) (clave b)

  insertar-Ordenada :
      (x : Referencia) (ys : List Referencia)
      → Ordenada clave ys
      → Ordenada clave (insertar por_clave x ys)
  insertar-Ordenada x [] o = (tt, tt)
  insertar-Ordenada x (y ∷ ys) (h, o) = elim (Bool-cases (ltb (clave y) (clave x))) [
    | inl antes ↦ rw antes (
      insertar-All por_clave (λ z. clave y ≤ clave z) x ys (ground arith) h,
      insertar-Ordenada x ys o,
    )
    | inr otro ↦
        let menor : clave x ≤ clave y = ground arith in
        rw otro (
          (
            menor,
            All-imp (λ z. clave y ≤ clave z) (λ z. clave x ≤ clave z) (λ z l. omega arith) ys h,
          ),
          (h, o),
        )
  ]

  ordenar-Ordenada : (xs : List Referencia) → Ordenada clave (ordenar por_clave xs)
  ordenar-Ordenada [] = tt
  ordenar-Ordenada (x ∷ xs) = insertar-Ordenada x (ordenar por_clave xs) (ordenar-Ordenada xs)

ordenar-IsListSort : IsListSort ordenar
ordenar-IsListSort = record { mismos = sum_by-ordenar; ordenada = ordenar-Ordenada }

abbrev pub segmento_de : ℕ → ℕ → ℕ → Segmento
segmento_de id base tamano = record {
  id_segmento = id;
  base_global = base;
  limite_global = limite_de base tamano;
  tamanio = tamano;
  memory_stick_id = none;
  en_swap = false;
  bloque_swap = none;
}

abbrev proceso_7 : Proceso
proceso_7 = record {
  pid = 7;
  registros = registros_en_cero;
  tabla_segmentos = segmento_de 0 50 30 ∷ [];
  suspendido = false;
}

abbrev pub proceso_8 : Proceso
proceso_8 = record proceso_7 { pid = 8; tabla_segmentos = segmento_de 0 20 10 ∷ [] }

abbrev pub km : Km
km = record {
  allocation_strategy = "BEST";
  lista_huecos_libres = nuevo_hueco 0 20 ∷ nuevo_hueco 30 20 ∷ nuevo_hueco 80 20 ∷ [];
  mutex_huecos = false;
  procesos = proceso_7 ∷ proceso_8 ∷ [];
  paths_por_pid = [];
  memoria_total = 100;
  lista_ms = registrados;
  lista_dir_global_ms = posiciones;
  avisos = [];
}

pub km-IsValid : IsValid km
km-IsValid = record {
  acotada = omega arith;
  huecos_ok = ((omega arith, refl), ((omega arith, refl), ((omega arith, refl), tt)));
  segmentos_ok = (((omega arith, refl), tt), (((omega arith, refl), tt), tt));
  cubierta = λ a. ground arith;
  sumada = refl;
}

pub buscar_proceso_8 : buscar_proceso 8 km.procesos ≡ some proceso_8
unfolding buscar_proceso
buscar_proceso_8 = refl

iniciar_compactacion_example :
    (av : Avance) × (km' : Km) × (iniciar_compactacion ordenar 8 1 55 km conexiones
      ≡ some (pos 1, km', av.sticks))
    × IsValid km'
    × SegmentoCreado 8 1 55 (compacto km av) (pos 1) km'
    × All
        (Conserva km.procesos
          (byte_global registrados conexiones posiciones)
          av.procesos
          (byte_global registrados av.sticks posiciones))
        (segmentos_de_procesos km.procesos)
iniciar_compactacion_example =
    iniciar_compactacion-Conserva ordenar ordenar-IsListSort km conexiones km-IsValid
      (((omega arith, omega arith), tt), (((omega arith, omega arith), tt), tt))
      (posiciones-Mapeado, (omega arith, (omega arith, tt))) conexiones-IsConectada 8 1 55 proceso_8
      refl buscar_proceso_8 (omega arith) (omega arith)
