-- ===== src/Memory/Sticks/Connection.antt =====
-- Connecting a Memory Stick extends the partition and the map of positions.
use tp_2026_1c_malloc_and_cr.Base.{
  ℕ, ◌+◌, ◌≤◌, ◌<◌, ◌≡◌, refl, inl, inr, Bool-cases, Bool, true, false, Option, some, List, [], ◌∷◌,
  ◌++◌, arith, ltb, leb, u32_mod, add32, All, All-append, All-imp,
}
use tp_2026_1c_malloc_and_cr.Fragments.{buscar_ms}
use tp_2026_1c_malloc_and_cr.Fragments.Total.{Mapeado}
use tp_2026_1c_malloc_and_cr.Memory.Types.{MsPos, Segmento, Proceso}
use tp_2026_1c_malloc_and_cr.Memory.Holes.Cover.{cubre, IsHueco, agregar_hueco_ms-Absorbe}
use tp_2026_1c_malloc_and_cr.Memory.State.{
  Km, IsValid, IsEnMemoria, IsSegmento, IsProceso, en_rango,
}
use tp_2026_1c_malloc_and_cr.Memory.Sticks.{
  aumentar_memoria_total, posicion, agregar_posicion_ms, conectar_memory_stick, base_de,
  limite_de_ms, fragmento_de,
}

abbrev pub buscar_pos : ℕ → List MsPos → Option MsPos
buscar_pos = buscar_ms base_de limite_de_ms fragmento_de

-- The positions of the sticks map every address of the memory, and no other.
abbrev pub Posiciones : ℕ → List MsPos → Type 0
Posiciones total ms =
    Mapeado base_de limite_de_ms fragmento_de total ms × All (λ m. m.limite_global < total) ms

buscar_pos-append :
    (dir : ℕ) (m p : MsPos) (ms : List MsPos)
    → buscar_pos dir ms ≡ some m
    → buscar_pos dir (ms ++ (p ∷ [])) ≡ some m
unfolding buscar_ms
buscar_pos-append dir m p [] e = absurd (cc)
buscar_pos-append dir m p (x ∷ ms) e = ground (arith, buscar_pos-append dir m p ms)

buscar_pos-last :
    (dir total : ℕ) (p : MsPos) (ms : List MsPos)
    → total ≤ dir
    → All (λ m. m.limite_global < total) ms
    → p.base_global ≤ dir
    → dir ≤ p.limite_global
    → buscar_pos dir (ms ++ (p ∷ [])) ≡ some p
unfolding buscar_ms
buscar_pos-last dir total p [] l h b d = ground arith
buscar_pos-last dir total p (x ∷ ms) l h b d =
    let fuera : leb dir x.limite_global ≡ false = ground (arith, h.0) in
    ground (arith, fuera, buscar_pos-last dir total p ms l h.1 b d)

agregar_posicion_ms-Posiciones :
    (id tamano total : ℕ) (ms : List MsPos)
    → 0 < tamano
    → total + tamano < u32_mod
    → Posiciones total ms
    → Posiciones (total + tamano) (agregar_posicion_ms total tamano id ms)
unfolding agregar_posicion_ms
agregar_posicion_ms-Posiciones id tamano total ms positivo cabe (v, limites) =
    let p = posicion total tamano id in
    let limite : p.limite_global + 1 ≡ total + tamano = omega arith in
    (
      record {
        acotado = cabe;
        ms_de = λ dir l. elim (Bool-cases (ltb dir total)) [
          | inl viejo ↦
              let (m, found, b, d, t) = v.ms_de dir (ground arith) in
              (m, buscar_pos-append dir m p ms found, b, d, omega arith)
          | inr nuevo ↦ (
            p,
            buscar_pos-last dir total p ms (ground arith) limites (ground arith)
                (omega (arith, limite)),
            ground arith,
            omega (arith, limite),
            omega (arith, limite),
          )
        ];
      },
      All-append (λ m. m.limite_global < total + tamano) ms (p ∷ [])
          (All-imp (λ m. m.limite_global < total) (λ m. m.limite_global < total + tamano)
            (λ m l. omega arith) ms limites)
          (omega (arith, limite), tt),
    )

-- A segment or a process inside a smaller memory is inside a larger one.
IsEnMemoria-mayor :
    (total mas : ℕ) (b : Bool) (s : Segmento)
    → IsEnMemoria b total s
    → IsEnMemoria b (total + mas) s
IsEnMemoria-mayor total mas true s h = tt
IsEnMemoria-mayor total mas false s h = (omega (arith, h.0), h.1)

IsProceso-mayor : (total mas : ℕ) (p : Proceso) → IsProceso total p → IsProceso (total + mas) p
IsProceso-mayor total mas p h =
    All-imp (IsSegmento total) (IsSegmento (total + mas))
      (λ s k. IsEnMemoria-mayor total mas s.en_swap s k) p.tabla_segmentos h

en_rango-mayor :
    (total tamano a : ℕ) → en_rango (total + tamano) a ≡ en_rango total a + cubre total tamano a
en_rango-mayor total tamano a = ground arith

-- Connecting a Memory Stick of some bytes, while the total stays below 2³², keeps the memory map a
-- partition of the larger memory, and the positions of the sticks go on to map every address.
pub conectar_memory_stick-IsValid :
    (id tamano socket : ℕ) (km : Km)
    → IsValid km
    → Posiciones km.memoria_total km.lista_dir_global_ms
    → 0 < tamano
    → km.memoria_total + tamano < u32_mod
    → let km' = conectar_memory_stick id tamano socket km in
      (km'.memoria_total ≡ km.memoria_total + tamano)
      × IsValid km'
      × Posiciones km'.memoria_total km'.lista_dir_global_ms
unfolding conectar_memory_stick aumentar_memoria_total
conectar_memory_stick-IsValid id tamano socket km v pos positivo cabe =
    let total = km.memoria_total in
    let suma : add32 total tamano ≡ total + tamano = omega arith in
    let hs = km.lista_huecos_libres in
    let mayores : All (IsHueco (total + tamano)) hs =
      All-imp (IsHueco total) (IsHueco (total + tamano)) (λ h k. (omega (arith, k.0), k.1)) hs
        v.huecos_ok in
    let ((ok, cubre_mas, suma_mas), unido) =
      agregar_hueco_ms-Absorbe (total + tamano) cabe total tamano hs mayores (omega arith) in
    rw suma (
      refl,
      record {
        acotada = cabe;
        huecos_ok = ok;
        segmentos_ok =
            All-imp (IsProceso total) (IsProceso (total + tamano))
              (λ p k. IsProceso-mayor total tamano p k) km.procesos v.segmentos_ok;
        cubierta = λ a. omega (arith, v.cubierta a, cubre_mas a, en_rango-mayor total tamano a);
        sumada = omega (arith, v.sumada, suma_mas);
      },
      agregar_posicion_ms-Posiciones id tamano total km.lista_dir_global_ms positivo cabe pos,
    )
