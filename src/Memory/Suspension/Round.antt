-- ===== src/Memory/Suspension/Round.antt =====
-- One round of the loop of `suspender_proceso_memoria`: it comes to its end, and the memory of a segment
-- that goes to Swap is free.
use tp_2026_1c_malloc_and_cr.Base.{
  ℕ, suc, ◌+◌, ◌≤◌, ◌<◌, ◌≡◌, ◌⊎◌, ◌∙◌, refl, sym, ap, subst, ◌==◌, leb, ltb, ◌&&◌, length, Bool,
  true, false, Option, none, some, Bool-cases, inl, inr, List, [], ◌∷◌, ◌++◌, get_elem?, All,
  All-append, All-set, All-get_elem?, sum_by-append, sum_by-set, arith,
}
use tp_2026_1c_malloc_and_cr.Stick.{copiar_de, copiar_a}
use tp_2026_1c_malloc_and_cr.Memory.Types.{Segmento, Proceso}
use tp_2026_1c_malloc_and_cr.Memory.Holes.{nuevo_hueco, agregar_hueco_sinmtx, agregar_hueco_libre}
use tp_2026_1c_malloc_and_cr.Memory.Holes.Cover.{IsHueco, cubre_hueco, tamano_hueco}
use tp_2026_1c_malloc_and_cr.Memory.State.{
  IsValid, IsProceso, IsSegmento, IsEnMemoria, cubre_proceso, suma_proceso, cubre_seg, suma_seg,
  cubre_segmento, suma_segmento,
}
use tp_2026_1c_malloc_and_cr.Memory.Processes.{buscar_proceso, modificar_proceso}
use tp_2026_1c_malloc_and_cr.Memory.Processes.Table.{
  sum_by-modificar_proceso, All-modificar_proceso, All-buscar_proceso,
}
use tp_2026_1c_malloc_and_cr.Memory.Processes.Removal.{buscar-modificar}
use tp_2026_1c_malloc_and_cr.Memory.Sticks.Connection.{Posiciones}
use tp_2026_1c_malloc_and_cr.Memory.Swap.{buscar_bloques_libres_swap}
use tp_2026_1c_malloc_and_cr.Memory.Swap.Blocks.{
  Libres, Asignados, Asignados-length, Buscados, get_elem?-set, buscar_bloques_libres_swap-Buscados,
}
use tp_2026_1c_malloc_and_cr.Memory.Suspension.Roundtrip.{escribir_segmento_en_swap_lem}
use tp_2026_1c_malloc_and_cr.Memory.Transfer.Flat.{
  IsConectada, byte_global, fragmentos_de, leer-Tramos,
}
use tp_2026_1c_malloc_and_cr.Memory.Compaction.Places.{get_elem?-set_ne}
use tp_2026_1c_malloc_and_cr.Memory.Compaction.Sorted.{TieneTamanio}
use tp_2026_1c_malloc_and_cr.Memory.Suspension.{
  Sistema, bloques_necesarios, con_segmento, segmento_en_swap, escribir_bloques,
  escribir_segmento_en_swap, pasar_a_swap, guardar_segmento, suspender_segmento,
}

-- The blocks that a segment in memory needs are no more than the bitmap has.
abbrev pub Entra : ℕ → ℕ → Bool → Segmento → Type 0
Entra block_size bits true s = Unit
Entra block_size bits false s = bloques_necesarios block_size s.tamanio ≤ bits

-- What a suspension makes of a segment, given the bitmap at its end: one in memory went to blocks of
-- Swap, or there is no free run of as many blocks as it needs.
abbrev pub Suerte : ℕ → List Bool → Bool → Segmento → Segmento → Type 0
Suerte block_size bitmap true s s' = s' ≡ s
Suerte block_size bitmap false s s' =
    ((b : ℕ) × (s' ≡ segmento_en_swap b s))
    ⊎ ((s' ≡ s)
        × ((b : ℕ)
            → b + bloques_necesarios block_size s.tamanio ≤ length bitmap
            → ¬ Libres bitmap b (bloques_necesarios block_size s.tamanio)))

-- No run of blocks becomes free.
abbrev pub Gasta : List Bool → List Bool → Type 0
Gasta bitmap bitmap' = (b n : ℕ) → Libres bitmap' b n → Libres bitmap b n

pub Suerte-Gasta :
    (block_size : ℕ) (bitmap bitmap' : List Bool) (b : Bool) (s s' : Segmento)
    → length bitmap' ≡ length bitmap
    → Gasta bitmap bitmap'
    → Suerte block_size bitmap b s s'
    → Suerte block_size bitmap' b s s'
Suerte-Gasta block_size bitmap bitmap' true s s' e g h = h
Suerte-Gasta block_size bitmap bitmap' false s s' e g (inl fue) = inl fue
Suerte-Gasta block_size bitmap bitmap' false s s' e g (inr (mismo, lleno)) = inr (
  mismo,
  λ b l h. lleno b (omega (arith, l, e)) (g b (bloques_necesarios block_size s.tamanio) h),
)

Asignados-Gasta :
    (n b : ℕ) (bitmap bitmap' : List Bool)
    → Asignados n bitmap (some b, bitmap')
    → Gasta bitmap bitmap'
Asignados-Gasta n b bitmap bitmap' (dentro, libres, primera, marcados, otros, largo) c m h i l k =
    elim (Bool-cases (leb b i && ltb i (b + n))) [
      | inr fuera ↦ sym (otros i fuera) ∙ h i l k
      | inl aqui ↦
          let ocupado : get_elem? bitmap' i ≡ some true =
            marcados i (ground (arith, aqui)) (ground (arith, aqui)) in
          let libre : get_elem? bitmap' i ≡ some false = h i l k in absurd (cc)
    ]

-- What holds before a round: the table of the process is still as it was from the index `j` on.
pub record EnCurso (block_size bits pid j : ℕ) (ss : List Segmento) (st : Sistema) : Type 0 where
  pub positivo : 0 < block_size
  pub de_bloque : st.swap_block_size ≡ block_size
  pub de_bits : length st.bitmap_swap ≡ bits
  pub entran : All (λ s. Entra block_size bits s.en_swap s) ss
  pub valido : IsValid st.km
  pub libre : st.km.mutex_huecos ≡ false
  pub posiciones : Posiciones st.km.memoria_total st.km.lista_dir_global_ms
  pub conectada : IsConectada st.km.memoria_total st.km.lista_ms st.km.lista_dir_global_ms st.sticks
  pub proceso : Proceso
  pub hallado : buscar_proceso pid st.km.procesos ≡ some proceso
  pub tabla : (i : ℕ) → get_elem? proceso.tabla_segmentos (j + i) ≡ get_elem? ss i
  pub poblado : All (λ s. TieneTamanio s.en_swap s) ss

module _ (block_size bits : ℕ) (basura : ℕ → ℕ) (pid j : ℕ) (s : Segmento) (ss : List Segmento)
    (st : Sistema) (v : EnCurso block_size bits pid j (s ∷ ss) st) where
  aqui_esta : get_elem? v.proceso.tabla_segmentos j ≡ some s
  aqui_esta =
      let n : j + 0 ≡ j = omega arith in
      subst (λ k. get_elem? v.proceso.tabla_segmentos k ≡ some s) n (v.tabla 0)

  tabla_sigue : (i : ℕ) → get_elem? v.proceso.tabla_segmentos (j + 1 + i) ≡ get_elem? ss i
  tabla_sigue i =
      let n : j + suc i ≡ j + 1 + i = omega arith in
      subst (λ k. get_elem? v.proceso.tabla_segmentos k ≡ get_elem? ss i) n (v.tabla (suc i))

  -- A round that changes nothing.
  sigue : EnCurso block_size bits pid (j + 1) ss st
  sigue = record {
    positivo = v.positivo;
    de_bloque = v.de_bloque;
    de_bits = v.de_bits;
    entran = v.entran.1;
    valido = v.valido;
    libre = v.libre;
    posiciones = v.posiciones;
    conectada = v.conectada;
    proceso = v.proceso;
    hallado = v.hallado;
    tabla = tabla_sigue;
    poblado = v.poblado.1;
  }

  -- What a round leaves.
  abbrev Ronda : Sistema → Type 0
  Ronda st' =
      (v' : EnCurso block_size bits pid (j + 1) ss st') × Gasta st.bitmap_swap st'.bitmap_swap
      × ((i : ℕ)
          → i < j
          → get_elem? v'.proceso.tabla_segmentos i ≡ get_elem? v.proceso.tabla_segmentos i)
      × (s' : Segmento) × (get_elem? v'.proceso.tabla_segmentos j ≡ some s')
      × Suerte block_size st'.bitmap_swap s.en_swap s s'

  module _ (residente : s.en_swap ≡ false) (bloque : ℕ) (bitmap : List Bool) (archivo : ℕ → ℕ) where
    abbrev s' : Segmento
    s' = segmento_en_swap bloque s

    abbrev despues : Sistema
    despues = record st {
      km = record st.km {
        lista_huecos_libres =
            st.km.lista_huecos_libres ++ (nuevo_hueco s.base_global s.tamanio ∷ []);
        procesos = modificar_proceso pid (con_segmento j s') st.km.procesos;
      };
      bitmap_swap = bitmap;
      archivo = archivo;
    }

    pasar_a_swap_lem : pasar_a_swap pid j s bloque bitmap archivo st ≡ some despues
    unfolding pasar_a_swap agregar_hueco_libre agregar_hueco_sinmtx
    pasar_a_swap_lem = rw v.libre

    en_memoria : IsEnMemoria false st.km.memoria_total s
    en_memoria =
        subst (λ b. IsEnMemoria b st.km.memoria_total s) residente
          (All-get_elem? (IsSegmento st.km.memoria_total) v.proceso.tabla_segmentos j s
            (All-buscar_proceso (IsProceso st.km.memoria_total) pid v.proceso st.km.procesos
              v.valido.segmentos_ok v.hallado)
            aqui_esta)

    despues-IsValid : IsValid despues.km
    despues-IsValid =
        let p = v.proceso in
        let huecos = st.km.lista_huecos_libres in
        let nuevo = nuevo_hueco s.base_global s.tamanio in
        record {
          acotada = v.valido.acotada;
          huecos_ok =
              All-append (IsHueco st.km.memoria_total) huecos _ v.valido.huecos_ok
                ((en_memoria.0, refl), tt);
          segmentos_ok =
              All-modificar_proceso (IsProceso st.km.memoria_total) pid (con_segmento j s')
                st.km.procesos
                (λ q q_ok. All-set (IsSegmento st.km.memoria_total) q.tabla_segmentos j s' q_ok tt)
                v.valido.segmentos_ok;
          cubierta = λ a. omega (
            arith,
            v.valido.cubierta a,
            sum_by-append (cubre_hueco a) huecos (nuevo ∷ []),
            ap (λ b. cubre_segmento b s a) residente,
            sum_by-modificar_proceso (cubre_proceso a) pid p (con_segmento j s') st.km.procesos
                v.hallado,
            sum_by-set (cubre_seg a) p.tabla_segmentos j s s' aqui_esta,
          );
          sumada = omega (
            arith,
            v.valido.sumada,
            sum_by-append tamano_hueco huecos (nuevo ∷ []),
            ap (λ b. suma_segmento b s) residente,
            sum_by-modificar_proceso suma_proceso pid p (con_segmento j s') st.km.procesos
                v.hallado,
            sum_by-set suma_seg p.tabla_segmentos j s s' aqui_esta,
          );
        }

    despues-EnCurso :
        length bitmap ≡ length st.bitmap_swap → EnCurso block_size bits pid (j + 1) ss despues
    despues-EnCurso largo = record {
      positivo = v.positivo;
      de_bloque = v.de_bloque;
      de_bits = largo ∙ v.de_bits;
      entran = v.entran.1;
      valido = despues-IsValid;
      libre = v.libre;
      posiciones = v.posiciones;
      conectada = v.conectada;
      proceso = con_segmento j s' v.proceso;
      hallado =
          buscar-modificar pid v.proceso (con_segmento j s') st.km.procesos (λ q. refl) v.hallado;
      tabla = λ i.
          get_elem?-set_ne v.proceso.tabla_segmentos j (j + 1 + i) s' (ground arith)
          ∙ tabla_sigue i;
      poblado = v.poblado.1;
    }

    despues-Ronda :
        length bitmap ≡ length st.bitmap_swap → Gasta st.bitmap_swap bitmap → Ronda despues
    unfolding despues-EnCurso
    despues-Ronda largo gasta = (
      despues-EnCurso largo,
      gasta,
      (λ i l. get_elem?-set_ne v.proceso.tabla_segmentos j i s' (ground (arith, l))),
      s',
      get_elem?-set v.proceso.tabla_segmentos j s s' aqui_esta,
      subst (λ b. Suerte block_size bitmap b s s') (sym residente) (inl (bloque, refl)),
    )

  abbrev n_bloques : ℕ
  n_bloques = bloques_necesarios st.swap_block_size s.tamanio

  abbrev tras_buscar : (ℕ → ℕ) → Option (Option ℕ × List Bool) → Option Sistema
  tras_buscar contenido none = none
  tras_buscar contenido (some (none, bitmap)) = some st
  tras_buscar contenido (some (some bloque, bitmap)) =
      elim (escribir_segmento_en_swap st.swap_block_size basura contenido s.tamanio bloque n_bloques
        st.archivo) [ none ↦ none | some archivo ↦ pasar_a_swap pid j s bloque bitmap archivo st ]

  guardar_segmento_lem :
      (contenido : ℕ → ℕ) (r : Option (Option ℕ × List Bool))
      → buscar_bloques_libres_swap n_bloques st.bitmap_swap ≡ r
      → guardar_segmento pid j s basura contenido st ≡ tras_buscar contenido r
  unfolding guardar_segmento
  guardar_segmento_lem contenido r e =
      let positivo = v.positivo in
      let igual = v.de_bloque in
      let block = st.swap_block_size in
      let no_cero : (block == 0) ≡ false = ground (arith, positivo, igual) in caso r e no_cero
    where
      caso :
          (r : Option (Option ℕ × List Bool))
          → buscar_bloques_libres_swap n_bloques st.bitmap_swap ≡ r
          → (st.swap_block_size == 0) ≡ false
          → guardar_segmento pid j s basura contenido st ≡ tras_buscar contenido r
      caso none e c = rw (c, guardar_segmento, e)
      caso (some (none, bitmap)) e c = rw (c, guardar_segmento, e)
      caso (some (some bloque, bitmap)) e c = rw (c, guardar_segmento, e)

  tras_buscar-Ronda :
      (contenido : ℕ → ℕ) (r : Option (Option ℕ × List Bool))
      → s.en_swap ≡ false
      → Buscados n_bloques st.bitmap_swap r
      → (st' : Sistema) × (tras_buscar contenido r ≡ some st') × Ronda st'
  unfolding sigue
  tras_buscar-Ronda contenido none residente b =
      let entra = subst (λ e. Entra block_size bits e s) residente v.entran.0 in
      let cabe : n_bloques ≤ length st.bitmap_swap =
        subst (λ k. bloques_necesarios k s.tamanio ≤ length st.bitmap_swap) (sym v.de_bloque)
          (subst (λ k. bloques_necesarios block_size s.tamanio ≤ k) (sym v.de_bits) entra) in
      absurd (omega (arith, cabe, b))
  tras_buscar-Ronda contenido (some (none, bitmap)) residente (cabe, (mismo, lleno)) = (
    st,
    refl,
    (
      sigue,
      (λ b n h. h),
      (λ i l. refl),
      s,
      aqui_esta,
      subst (λ b. Suerte block_size st.bitmap_swap b s s) (sym residente)
          (subst (λ k. Suerte k st.bitmap_swap false s s) v.de_bloque (inr (refl, lleno))),
    ),
  )
  tras_buscar-Ronda contenido (some (some bloque, bitmap)) residente (cabe, asignados) =
      let archivo =
        escribir_bloques st.swap_block_size basura contenido s.tamanio 0 bloque n_bloques
          st.archivo in
      let tamanio = subst (λ b. TieneTamanio b s) residente v.poblado.0 in
      let escrito =
        escribir_segmento_en_swap_lem st.swap_block_size basura contenido s.tamanio bloque n_bloques
          st.archivo tamanio.1 in
      let largo = Asignados-length n_bloques bloque st.bitmap_swap bitmap asignados in
      (
        despues residente bloque bitmap archivo,
        rw (escrito, tras_buscar) (pasar_a_swap_lem residente bloque bitmap archivo),
        despues-Ronda residente bloque bitmap archivo largo
            (Asignados-Gasta n_bloques bloque st.bitmap_swap bitmap asignados),
      )

  pub suspender-Ronda :
      (st' : Sistema) × (suspender_segmento basura pid j s st ≡ some st') × Ronda st'
  unfolding suspender_segmento sigue
  suspender-Ronda = elim (Bool-cases s.en_swap) [
    | inl afuera ↦ (
      st,
      rw afuera,
      (
        sigue,
        (λ b n h. h),
        (λ i l. refl),
        s,
        aqui_esta,
        subst (λ b. Suerte block_size st.bitmap_swap b s s) (sym afuera) refl,
      ),
    )
    | inr residente ↦
        let tamanio = subst (λ b. TieneTamanio b s) residente v.poblado.0 in
        let dentro = en_memoria residente 0 [] (λ _. 0) in
        let (fs, cortado, tramos) =
          fragmentos_de s.base_global s.tamanio st.km.memoria_total st.km.lista_dir_global_ms
            v.posiciones tamanio.1 dentro.0 in
        let g = byte_global st.km.lista_ms st.sticks st.km.lista_dir_global_ms in
        let contenido = copiar_a (λ _. 0) 0 (copiar_de g s.base_global s.tamanio) in
        let leido = leer-Tramos st.sticks (λ _. 0) v.conectada tramos in
        let r = buscar_bloques_libres_swap n_bloques st.bitmap_swap in
        let (st', hecho, ronda) =
          tras_buscar-Ronda contenido r residente
            (buscar_bloques_libres_swap-Buscados n_bloques st.bitmap_swap) in
        (st', rw (residente, cortado, leido) (guardar_segmento_lem contenido r refl ∙ hecho), ronda)
  ]
