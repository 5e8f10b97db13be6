-- ===== src/Memory/Compaction/Round.antt =====
-- One round of the compaction: the segment is moved down, with its bytes.
use tp_2026_1c_malloc_and_cr.Base.{
  ℕ, ◌+◌, ◌≤◌, ◌<◌, ◌≡◌, ◌∙◌, refl, sym, ap, true, false, ◌&&◌, leb, ltb, some, inl, inr,
  Bool-cases, List, ◌==◌, add32, sub32, u32_mod, arith,
}
use tp_2026_1c_malloc_and_cr.Stick.{copiar_de, copiar_a}
use tp_2026_1c_malloc_and_cr.Stick.Access.{copiar_a-fuera}
use tp_2026_1c_malloc_and_cr.Fragments.Store.{
  Sticks, length-copiar_de, copiar_a-copiar_de, copiar_ida_y_vuelta,
}
use tp_2026_1c_malloc_and_cr.Memory.Types.{Segmento, MsInfo, MsPos, Fragmento}
use tp_2026_1c_malloc_and_cr.Memory.Holes.{limite_de}
use tp_2026_1c_malloc_and_cr.Memory.State.{tamano_real}
use tp_2026_1c_malloc_and_cr.Memory.Sticks.{calcular_dir_local_ms}
use tp_2026_1c_malloc_and_cr.Memory.Sticks.Connection.{Posiciones}
use tp_2026_1c_malloc_and_cr.Memory.Transfer.{
  enviar_fragmentos_escritura, enviar_fragmentos_lectura,
}
use tp_2026_1c_malloc_and_cr.Memory.Transfer.Flat.{
  IsConectada, byte_global, fragmentos_de, leer-Tramos, escribir-Tramos,
}
use tp_2026_1c_malloc_and_cr.Memory.Compaction.{
  Referencia, segmento_en, poner_segmento, Avance, reubicado, trasladar, mover,
}
use tp_2026_1c_malloc_and_cr.Memory.Compaction.Places.{poner_segmento_mismo}

-- A segment in memory whose size is a positive `int`, from `lo` up.
pub record IsMovible (total lo : ℕ) (s : Segmento) : Type 0 where
  pub presente : s.en_swap ≡ false
  pub desde : lo ≤ s.base_global
  pub dentro : s.base_global + s.tamanio ≤ total
  pub limite : s.limite_global ≡ limite_de s.base_global s.tamanio
  pub positivo : 0 < s.tamanio
  pub corto : s.tamanio < 2147483648

reubicado_mismo :
    (s : Segmento) (b l : ℕ)
    → b ≡ s.base_global
    → l ≡ s.limite_global
    → record s { base_global = b; limite_global = l } ≡ s
reubicado_mismo s b l e f =
    ap (λ c. record s { base_global = c; limite_global = l }) e
    ∙ ap (λ m. record s { limite_global = m }) f

-- Copying a range to a lower place, and nothing else.
pub record Copiado (f g : ℕ → ℕ) (desde hasta n : ℕ) : Type 0 where
  pub copia : (i : ℕ) → i < n → g (hasta + i) ≡ f (desde + i)
  pub resto : (a : ℕ) → (leb hasta a && ltb a (hasta + n)) ≡ false → g a ≡ f a

copiar-Copiado :
    (g h : ℕ → ℕ) (desde hasta n : ℕ)
    → h ≡ copiar_a g hasta (copiar_de (copiar_a (λ _. 0) 0 (copiar_de g desde n)) 0 n)
    → Copiado g h desde hasta n
copiar-Copiado g h desde hasta n final =
    let xs = copiar_de g desde n in
    let directo : h ≡ copiar_a g hasta xs =
      final ∙ ap (copiar_a g hasta) (copiar_ida_y_vuelta (λ _. 0) g 0 desde n) in
    record {
      copia = λ i l. ap (λ f. f (hasta + i)) directo ∙ copiar_a-copiar_de g g hasta desde n i l;
      resto = λ a f.
          ap (λ f. f a) directo ∙ copiar_a-fuera g hasta a xs (rw (length-copiar_de g desde n) f);
    }

module _ (total : ℕ) (lista_ms : List MsInfo) (lista_dir : List MsPos) (acotada : total < u32_mod)
    (posiciones : Posiciones total lista_dir) where
  abbrev pub bytes : Avance → ℕ → ℕ
  bytes av = byte_global lista_ms av.sticks lista_dir

  -- What one round leaves: the segment at the next free base, with its bytes.
  pub record Ronda (r : Referencia) (s : Segmento) (av av' : Avance) : Type 0 where
    pub procesos : av'.procesos ≡ poner_segmento r (reubicado s av.proxima_base_libre) av.procesos
    pub proxima : av'.proxima_base_libre ≡ av.proxima_base_libre + s.tamanio
    pub conectada : IsConectada total lista_ms lista_dir av'.sticks
    pub copiado : Copiado (bytes av) (bytes av') s.base_global av.proxima_base_libre s.tamanio

  real : (lo : ℕ) (s : Segmento) → IsMovible total lo s → tamano_real s ≡ s.tamanio
  real lo s k = let d = k.dentro in let l = k.limite in let p = k.positivo in omega arith

  module _ (r : Referencia) (s : Segmento) (av : Avance)
      (k : IsMovible total av.proxima_base_libre s)
      (v : IsConectada total lista_ms lista_dir av.sticks) where
    pub trasladar-Ronda :
        (av' : Avance) × (trasladar lista_ms lista_dir r s av ≡ some (true, av')) × Ronda r s av av'
    unfolding trasladar
    trasladar-Ronda =
        let n = s.tamanio in
        let hasta = av.proxima_base_libre in
        let desde = s.base_global in
        let g = bytes av in
        let real_n : tamano_real s ≡ n = real hasta s k in
        let datos = copiar_a (λ _. 0) 0 (copiar_de g desde n) in
        let (ls, cortado, tramos) =
          fragmentos_de desde n total lista_dir posiciones k.corto k.dentro in
        let bajo = k.desde in
        let techo = k.dentro in
        let cabe : hasta + n ≤ total = omega arith in
        let (es, cortado', tramos') =
          fragmentos_de hasta n total lista_dir posiciones k.corto cabe in
        let (sticks', escrito, v', final) = escribir-Tramos datos tramos' av.sticks v in
        let av' : Avance = record {
          procesos = poner_segmento r (reubicado s hasta) av.procesos;
          sticks = sticks';
          proxima_base_libre = add32 (add32 hasta (sub32 (tamano_real s) 1)) 1;
        } in
        let p = k.positivo in
        (
          av',
          trasladado ls es datos av'.sticks
              (ap (λ x. calcular_dir_local_ms desde x lista_dir) real_n ∙ cortado)
              (leer-Tramos av.sticks (λ _. 0) v tramos)
              (ap (λ x. calcular_dir_local_ms hasta x lista_dir) real_n ∙ cortado') escrito,
          record {
            procesos = refl;
            proxima = rw real_n (omega arith);
            conectada = v';
            copiado = copiar-Copiado g (bytes av') desde hasta n final;
          },
        )
      where
        trasladado :
            (ls es : List Fragmento) (datos : ℕ → ℕ) (sticks' : Sticks)
            → calcular_dir_local_ms s.base_global (tamano_real s) lista_dir ≡ some (some ls)
            → enviar_fragmentos_lectura lista_ms ls (λ _. 0) 0 av.sticks ≡ some (some datos)
            → calcular_dir_local_ms av.proxima_base_libre (tamano_real s) lista_dir ≡ some (some es)
            → enviar_fragmentos_escritura lista_ms es datos 0 av.sticks ≡ some sticks'
            → trasladar lista_ms lista_dir r s av
              ≡ some (
                true,
                record {
                  procesos = poner_segmento r (reubicado s av.proxima_base_libre) av.procesos;
                  sticks = sticks';
                  proxima_base_libre =
                      add32 (add32 av.proxima_base_libre (sub32 (tamano_real s) 1)) 1;
                },
              )
        trasladado ls es datos sticks' a b c d = rw (a, trasladar, b, c, d)

    pub mover-Ronda :
        segmento_en r av.procesos ≡ some s
        → (av' : Avance) × (mover lista_ms lista_dir r s av ≡ some (true, av')) × Ronda r s av av'
    unfolding mover
    mover-Ronda esta = elim (Bool-cases (s.base_global == av.proxima_base_libre)) [
      | inl mismo ↦
          let base : av.proxima_base_libre ≡ s.base_global = ground arith in
          (record av { proxima_base_libre = add32 s.limite_global 1 }, rw mismo, quieto base)
      | inr otro ↦ let (av', movido, ronda) = trasladar-Ronda in (av', rw otro movido, ronda)
    ]
      where
        quieto :
            av.proxima_base_libre ≡ s.base_global
            → Ronda r s av (record av { proxima_base_libre = add32 s.limite_global 1 })
        quieto base =
            let n : tamano_real s ≡ s.tamanio = real av.proxima_base_libre s k in
            let d = k.dentro in
            let p = k.positivo in
            let l = k.limite in
            let limite : add32 av.proxima_base_libre (sub32 (tamano_real s) 1) ≡ s.limite_global =
              omega (arith, n) in
            record {
              procesos = sym (
                  ap (λ t. poner_segmento r t av.procesos) (reubicado_mismo s _ _ base limite)
                  ∙ poner_segmento_mismo r av.procesos s esta);
              proxima = omega arith;
              conectada = v;
              copiado = record {
                copia = λ i l. ap (λ b. bytes av (b + i)) base;
                resto = λ a f. refl;
              };
            }
