-- ===== src/Memory/Segments/Accounting.antt =====
-- What creating and removing segments does to the memory map.
use tp_2026_1c_malloc_and_cr.Base.{
  ℕ, ◌≤◌, ◌<◌, ◌≡◌, refl, ◌⊎◌, inl, inr, Option-cases, false, Option, none, some, List, [], ◌∷◌,
  ◌++◌, arith, ℤ, pos, negsuc, All, All-append, get_elem?, All-get_elem?, subst, sum_by-append,
}
use tp_2026_1c_malloc_and_cr.Memory.Types.{Proceso, Hueco, Aviso}
use tp_2026_1c_malloc_and_cr.Memory.Holes.{consumir_hueco, buscar_hueco}
use tp_2026_1c_malloc_and_cr.Memory.Holes.Fit.{Encuentra, buscar_hueco-Encuentra}
use tp_2026_1c_malloc_and_cr.Memory.Holes.Cover.{
  IsHueco, consumir_hueco-All, consumir_hueco-cubre, consumir_hueco-suma,
}
use tp_2026_1c_malloc_and_cr.Memory.State.{
  Km, Particion, IsValid, IsProceso, IsSegmento, cubre_proceso, suma_proceso, cubre_seg, suma_seg,
}
use tp_2026_1c_malloc_and_cr.Memory.Processes.{buscar_proceso, modificar_proceso}
use tp_2026_1c_malloc_and_cr.Memory.Processes.Table.{
  sum_by-modificar_proceso, All-modificar_proceso,
}
use tp_2026_1c_malloc_and_cr.Memory.Segments.{
  segmento_nuevo, agregar_segmento, registrar_segmento, crear_segmento,
}

-- Consuming the first bytes of a hole for a new segment of a process keeps the partition.
module _ {total : ℕ} {huecos : List Hueco} {procesos : List Proceso}
    (v : Particion total huecos procesos) (i : ℕ) (h : Hueco) (t id pid : ℕ) (p : Proceso)
    (got : get_elem? huecos i ≡ some h) (fits : t ≤ h.tamano)
    (found : buscar_proceso pid procesos ≡ some p) where
  pub asignar-Particion :
      Particion total
        (consumir_hueco i h t huecos)
        (modificar_proceso pid (agregar_segmento (segmento_nuevo id h.base t)) procesos)
  asignar-Particion =
      let s = segmento_nuevo id h.base t in
      let dentro : IsHueco total h = All-get_elem? (IsHueco total) huecos i h v.huecos_ok got in
      record {
        acotada = v.acotada;
        huecos_ok = consumir_hueco-All total v.acotada i h t huecos v.huecos_ok got fits;
        segmentos_ok =
            All-modificar_proceso (IsProceso total) pid _ procesos
              (λ q ok.
                All-append (IsSegmento total) q.tabla_segmentos _ ok ((omega arith, refl), tt))
              v.segmentos_ok;
        cubierta = λ a. omega (
          arith,
          v.cubierta a,
          consumir_hueco-cubre total v.acotada i h t huecos a v.huecos_ok got fits,
          sum_by-modificar_proceso (cubre_proceso a) pid p (agregar_segmento s) procesos found,
          sum_by-append (cubre_seg a) p.tabla_segmentos (s ∷ []),
        );
        sumada = omega (
          arith,
          v.sumada,
          consumir_hueco-suma total v.acotada i h t huecos v.huecos_ok got fits,
          sum_by-modificar_proceso suma_proceso pid p (agregar_segmento s) procesos found,
          sum_by-append suma_seg p.tabla_segmentos (s ∷ []),
        );
      }

-- What `crear_segmento` leaves: a valid state in which either no hole fits and the map is as it was
-- (-1), or the process's table has the new segment, at the base of a hole that fits (1).
pub record SinLugar (t : ℕ) (km : Km) (c : ℤ) (km' : Km) : Type 0 where
  pub codigo : c ≡ negsuc 0
  pub no_entra : All (λ h. h.tamano < t) km.lista_huecos_libres
  pub mismos_huecos : km'.lista_huecos_libres ≡ km.lista_huecos_libres
  pub mismos_procesos : km'.procesos ≡ km.procesos

pub record SegmentoCreado (pid id t : ℕ) (km : Km) (c : ℤ) (km' : Km) : Type 0 where
  pub codigo : c ≡ pos 1
  pub indice : ℕ
  pub hueco : Hueco
  pub elegido : get_elem? km.lista_huecos_libres indice ≡ some hueco
  pub entra : t ≤ hueco.tamano
  pub procesos :
      km'.procesos
      ≡ modificar_proceso pid (agregar_segmento (segmento_nuevo id hueco.base t)) km.procesos

abbrev pub CreaSegmento : ℕ → ℕ → ℕ → Km → Option (ℤ × Km) → Type 0
CreaSegmento pid id t km none = ⊥
CreaSegmento pid id t km (some (c, km')) =
    IsValid km'
    × (km'.memoria_total ≡ km.memoria_total)
    × (SinLugar t km c km' ⊎ SegmentoCreado pid id t km c km')

module _ (pid id t : ℕ) (km : Km) (libre : km.mutex_huecos ≡ false) where
  abbrev busqueda : Option (ℕ × Hueco) × List Aviso
  busqueda = buscar_hueco km.allocation_strategy t pid id km.lista_huecos_libres

  pub crear_segmento-sin_lugar :
      busqueda.0 ≡ none
      → crear_segmento pid id t km ≡ some (negsuc 0, record km { avisos = km.avisos ++ busqueda.1 })
  unfolding crear_segmento
  crear_segmento-sin_lugar nada = ground arith

  pub crear_segmento-creado :
      (i : ℕ) (h : Hueco) (p : Proceso)
      → busqueda.0 ≡ some (i, h)
      → buscar_proceso pid km.procesos ≡ some p
      → crear_segmento pid id t km
        ≡ some (
          pos 1,
          record km {
            lista_huecos_libres = consumir_hueco i h t km.lista_huecos_libres;
            procesos =
                modificar_proceso pid (agregar_segmento (segmento_nuevo id h.base t)) km.procesos;
            avisos = km.avisos ++ busqueda.1;
          },
        )
  unfolding crear_segmento registrar_segmento
  crear_segmento-creado i h p algo found = ground arith

  pub crear_segmento-desconocido :
      (i : ℕ) (h : Hueco)
      → busqueda.0 ≡ some (i, h)
      → buscar_proceso pid km.procesos ≡ none
      → crear_segmento pid id t km
        ≡ some (
          negsuc 1,
          record km {
            lista_huecos_libres = consumir_hueco i h t km.lista_huecos_libres;
            avisos = km.avisos ++ busqueda.1;
          },
        )
  unfolding crear_segmento registrar_segmento
  crear_segmento-desconocido i h algo missing = ground arith

-- With `mutex_huecos` free and the process known, `crear_segmento` returns and keeps the memory map a
-- partition. It answers -1 and changes neither holes nor segments, and then no hole fits; or it
-- answers 1, and has added to the process's table a segment of the size asked for, at the base of a
-- hole that fits.
pub crear_segmento-CreaSegmento :
    (pid id t : ℕ) (km : Km) (p : Proceso)
    → IsValid km
    → km.mutex_huecos ≡ false
    → buscar_proceso pid km.procesos ≡ some p
    → CreaSegmento pid id t km (crear_segmento pid id t km)
crear_segmento-CreaSegmento pid id t km p v libre found =
    let busca = buscar_hueco km.allocation_strategy t pid id km.lista_huecos_libres in
    let e = buscar_hueco-Encuentra km.allocation_strategy t pid id km.lista_huecos_libres in
    elim (Option-cases busca.0) [
      | inl nada ↦ rw (crear_segmento-sin_lugar pid id t km libre nada) (
        v,
        refl,
        inl (record {
          codigo = refl;
          no_entra = subst (Encuentra t km.lista_huecos_libres) nada e;
          mismos_huecos = refl;
          mismos_procesos = refl;
        }),
      )
      | inr ((i, h), algo) ↦
          let e' : Encuentra t km.lista_huecos_libres (some (i, h)) =
            subst (Encuentra t km.lista_huecos_libres) algo e in
          rw (crear_segmento-creado pid id t km libre i h p algo found) (
            asignar-Particion v i h t id pid p e'.0 e'.1 found,
            refl,
            inr (record {
              codigo = refl;
              indice = i;
              hueco = h;
              elegido = e'.0;
              entra = e'.1;
              procesos = refl;
            }),
          )
    ]

-- The leak: when a hole fits but the pid is unknown, `crear_segmento` answers -2 with the hole's
-- bytes already consumed, so for a size above 0 the map no longer accounts for all the memory.
pub crear_segmento_pierde :
    (pid id t : ℕ) (km : Km) (i : ℕ) (h : Hueco)
    → IsValid km
    → km.mutex_huecos ≡ false
    → 0 < t
    → buscar_proceso pid km.procesos ≡ none
    → (buscar_hueco km.allocation_strategy t pid id km.lista_huecos_libres).0 ≡ some (i, h)
    → (km' : Km) × (crear_segmento pid id t km ≡ some (negsuc 1, km')) × ¬ IsValid km'
crear_segmento_pierde pid id t km i h v libre positivo missing algo =
    let e : Encuentra t km.lista_huecos_libres (some (i, h)) =
      subst (Encuentra t km.lista_huecos_libres) algo
        (buscar_hueco-Encuentra km.allocation_strategy t pid id km.lista_huecos_libres) in
    (
      _,
      crear_segmento-desconocido pid id t km libre i h algo missing,
      λ v'. omega (
        arith,
        v.sumada,
        v'.sumada,
        consumir_hueco-suma km.memoria_total v.acotada i h t km.lista_huecos_libres v.huecos_ok e.0
            e.1,
      ),
    )
