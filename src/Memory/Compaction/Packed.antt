-- ===== src/Memory/Compaction/Packed.antt =====
-- The loop of the compaction: at its end the segments in memory fill the first addresses, each with the
-- bytes it had.
use tp_2026_1c_malloc_and_cr.Base.{
  ℕ, ◌+◌, ◌≤◌, ◌<◌, ◌≡◌, ◌∙◌, refl, sym, ap, subst, true, some, List, [], ◌∷◌, All, sum_by, u32_mod,
  arith,
}
use tp_2026_1c_malloc_and_cr.Memory.Types.{Segmento, Proceso, MsInfo, MsPos}
use tp_2026_1c_malloc_and_cr.Memory.Holes.Cover.{cubre}
use tp_2026_1c_malloc_and_cr.Memory.Processes.{buscar_proceso}
use tp_2026_1c_malloc_and_cr.Memory.State.{
  IsSegmento, IsEnMemoria, IsProceso, cubre_procesos, suma_procesos, cubre_segmento, suma_segmento,
  cubre_seg, suma_seg, en_rango, tamano_real_lem,
}
use tp_2026_1c_malloc_and_cr.Memory.Sticks.Connection.{Posiciones}
use tp_2026_1c_malloc_and_cr.Memory.Transfer.Flat.{IsConectada}
use tp_2026_1c_malloc_and_cr.Memory.Compaction.{
  Referencia, segmento_en, Avance, reubicado, compactar,
}
use tp_2026_1c_malloc_and_cr.Memory.Compaction.Places.{
  medida, aqui, poner_segmento_suma, poner_segmento-All, segmento_en-poner_self,
  segmento_en-poner_ne, buscar_proceso-poner,
}
use tp_2026_1c_malloc_and_cr.Memory.Compaction.Round.{IsMovible, Ronda, bytes, mover-Ronda}

-- The segments at the places follow one another from `lo` up.
abbrev pub Apilados : ℕ → List Proceso → ℕ → List Referencia → Type 0
Apilados total ps lo [] = Unit
Apilados total ps lo (r ∷ rs) =
    (s : Segmento) × (segmento_en r ps ≡ some s)
    × IsMovible total lo s
    × Apilados total ps (s.base_global + s.tamanio) rs

abbrev pub suma_de : (Segmento → ℕ) → List Proceso → List Referencia → ℕ
suma_de g ps rs = sum_by (λ r. medida g (segmento_en r ps)) rs

abbrev pub cubre_en : ℕ → Segmento → ℕ
cubre_en a s = cubre s.base_global s.tamanio a

abbrev pub tamanio_en : Segmento → ℕ
tamanio_en s = s.tamanio

abbrev pub veces : Referencia → List Referencia → ℕ
veces x rs = sum_by (aqui x.proceso x.segmento) rs

aqui_sym : (x r : Referencia) → aqui x.proceso x.segmento r ≡ 0 → aqui r.proceso r.segmento x ≡ 0
aqui_sym x r e = ground arith

pub IsMovible-bajar :
    (total lo menos : ℕ) (s : Segmento)
    → menos ≤ lo
    → IsMovible total lo s
    → IsMovible total menos s
IsMovible-bajar total lo menos s h k =
    let d = k.desde in
    record {
      presente = k.presente;
      desde = omega arith;
      dentro = k.dentro;
      limite = k.limite;
      positivo = k.positivo;
      corto = k.corto;
    }

-- What a write at another place leaves.
module _ (r : Referencia) (ps ps' : List Proceso)
    (igual : (x : Referencia)
      → aqui r.proceso r.segmento x ≡ 0
      → segmento_en x ps' ≡ segmento_en x ps) where
  suma_de_otros :
      (g : Segmento → ℕ) (rs : List Referencia)
      → veces r rs ≡ 0
      → suma_de g ps' rs ≡ suma_de g ps rs
  suma_de_otros g [] cero = refl
  suma_de_otros g (x ∷ rs) cero =
      let e = ap (medida g) (igual x (omega (arith, cero))) in
      omega (arith, e, suma_de_otros g rs (omega (arith, cero)))

  Apilados-otros :
      (total lo menos : ℕ) (rs : List Referencia)
      → veces r rs ≡ 0
      → menos ≤ lo
      → Apilados total ps lo rs
      → Apilados total ps' menos rs
  Apilados-otros total lo menos [] cero h v = tt
  Apilados-otros total lo menos (x ∷ rs) cero h (s, e, k, resto) =
      let techo = s.base_global + s.tamanio in
      (
        s,
        igual x (omega (arith, cero)) ∙ e,
        IsMovible-bajar total lo menos s h k,
        Apilados-otros total techo techo rs (omega (arith, cero)) (omega arith) resto,
      )

-- A segment that keeps its bytes at its new base.
abbrev pub Movido : List Proceso → (ℕ → ℕ) → List Proceso → (ℕ → ℕ) → Referencia → Type 0
Movido ps f ps' g x =
    (s : Segmento) × (b : ℕ) × (segmento_en x ps ≡ some s)
    × (segmento_en x ps' ≡ some (reubicado s b))
    × ((i : ℕ) → i < s.tamanio → g (b + i) ≡ f (s.base_global + i))

module _ (r : Referencia) (ps ps1 ps' : List Proceso) (f f1 g : ℕ → ℕ) (total : ℕ)
    (igual : (x : Referencia)
      → aqui r.proceso r.segmento x ≡ 0
      → segmento_en x ps1 ≡ segmento_en x ps) where
  Movido-otros :
      (lo : ℕ) (rs : List Referencia)
      → veces r rs ≡ 0
      → Apilados total ps lo rs
      → ((a : ℕ) → lo ≤ a → f1 a ≡ f a)
      → All (Movido ps1 f1 ps' g) rs
      → All (Movido ps f ps' g) rs
  Movido-otros lo [] cero v quietos h = tt
  Movido-otros lo (x ∷ rs) cero (s0, e0, k, resto) quietos ((s, b, e, e', copia), hs) =
      let antes : segmento_en x ps ≡ some s = sym (igual x (omega (arith, cero))) ∙ e in
      let mismo : s0 ≡ s = cc in
      let desde : lo ≤ s.base_global = subst (λ t. lo ≤ t.base_global) mismo k.desde in
      let subida = k.desde in
      (
        (s, b, antes, e', λ i l. copia i l ∙ quietos (s.base_global + i) (omega arith)),
        Movido-otros (s0.base_global + s0.tamanio) rs (omega (arith, cero)) resto
            (λ a l. quietos a (omega arith)) hs,
      )

module _ (total : ℕ) (lista_ms : List MsInfo) (lista_dir : List MsPos) (acotada : total < u32_mod)
    (posiciones : Posiciones total lista_dir) where
  abbrev mem : Avance → ℕ → ℕ
  mem = bytes total lista_ms lista_dir acotada posiciones

  -- What holds before a round.
  pub record IsAvance (rs : List Referencia) (av : Avance) : Type 0 where
    pub conectada : IsConectada total lista_ms lista_dir av.sticks
    pub segmentos_ok : All (IsProceso total) av.procesos
    pub techo : av.proxima_base_libre ≤ total
    pub apilados : Apilados total av.procesos av.proxima_base_libre rs
    pub una_vez : (i j : ℕ) → sum_by (aqui i j) rs ≤ 1
    pub cubierta :
        (a : ℕ)
        → cubre_procesos av.procesos a
          ≡ en_rango av.proxima_base_libre a + suma_de (cubre_en a) av.procesos rs
    pub sumada :
        suma_procesos av.procesos ≡ av.proxima_base_libre + suma_de tamanio_en av.procesos rs

  -- What the loop leaves.
  pub record Compactado (rs : List Referencia) (av av' : Avance) : Type 0 where
    pub final : IsAvance [] av'
    pub intacta : (a : ℕ) → a < av.proxima_base_libre → mem av' a ≡ mem av a
    pub ajenos :
        (x : Referencia) → veces x rs ≡ 0 → segmento_en x av'.procesos ≡ segmento_en x av.procesos
    pub suma : suma_procesos av'.procesos ≡ suma_procesos av.procesos
    pub presentes :
        (pid : ℕ) (p : Proceso)
        → buscar_proceso pid av.procesos ≡ some p
        → (q : Proceso) × (buscar_proceso pid av'.procesos ≡ some q)
    pub movidos : All (Movido av.procesos (mem av) av'.procesos (mem av')) rs

  module _ (r : Referencia) (rs : List Referencia) (s : Segmento) (av av' : Avance)
      (v : IsAvance (r ∷ rs) av) (esta : segmento_en r av.procesos ≡ some s)
      (k : IsMovible total av.proxima_base_libre s)
      (resto : Apilados total av.procesos (s.base_global + s.tamanio) rs)
      (ronda : Ronda total lista_ms lista_dir acotada posiciones r s av av') where
    abbrev nuevo : Segmento
    nuevo = reubicado s av.proxima_base_libre

    no_vuelve : veces r rs ≡ 0
    no_vuelve =
        let u = v.una_vez r.proceso r.segmento in
        let yo : aqui r.proceso r.segmento r ≡ 1 = ground arith in omega (arith, u, yo)

    igual :
        (x : Referencia)
        → aqui r.proceso r.segmento x ≡ 0
        → segmento_en x av'.procesos ≡ segmento_en x av.procesos
    igual x lejos =
        ap (segmento_en x) ronda.procesos ∙ segmento_en-poner_ne r av.procesos s nuevo esta x lejos

    propio : segmento_en r av'.procesos ≡ some nuevo
    propio = ap (segmento_en r) ronda.procesos ∙ segmento_en-poner_self r av.procesos s nuevo esta

    suma_nueva :
        (f : Segmento → ℕ)
        → sum_by (λ p. sum_by f p.tabla_segmentos) av'.procesos + f s
          ≡ sum_by (λ p. sum_by f p.tabla_segmentos) av.procesos + f nuevo
    suma_nueva f =
        ap (λ ps. sum_by (λ p. sum_by f p.tabla_segmentos) ps + f s) ronda.procesos
        ∙ poner_segmento_suma r av.procesos s nuevo esta f

    nuevo-IsSegmento : IsSegmento total nuevo
    nuevo-IsSegmento =
        let n = tamano_real_lem total s acotada (k.dentro, k.limite) in
        let d = k.desde in
        let t = k.dentro in
        let p = k.positivo in
        subst (λ b. IsEnMemoria b total nuevo) (sym k.presente) (omega arith, omega (arith, n))

    ronda-IsAvance : IsAvance rs av'
    ronda-IsAvance =
        let d = k.desde in
        let t = k.dentro in
        let p = ronda.proxima in
        record {
          conectada = ronda.conectada;
          segmentos_ok =
              subst (All (IsProceso total)) (sym ronda.procesos) (
                poner_segmento-All r av.procesos s nuevo esta total v.segmentos_ok
                  nuevo-IsSegmento);
          techo = omega arith;
          apilados =
              Apilados-otros r av.procesos av'.procesos igual total (s.base_global + s.tamanio)
                av'.proxima_base_libre rs no_vuelve (omega arith) resto;
          una_vez = λ i j. omega (arith, v.una_vez i j);
          cubierta = λ a.
              let antes = ap (λ b. cubre_segmento b s a) k.presente in
              let ahora = ap (λ b. cubre_segmento b nuevo a) k.presente in
              let fuera =
                suma_de_otros r av.procesos av'.procesos igual (cubre_en a) rs no_vuelve in
              let este = ap (medida (cubre_en a)) esta in
              let parte : en_rango av'.proxima_base_libre a
                  ≡ en_rango av.proxima_base_libre a + cubre av.proxima_base_libre s.tamanio a =
                rw p (ground arith) in
              omega
                (arith, v.cubierta a, suma_nueva (cubre_seg a), antes, ahora, fuera, este, parte);
          sumada =
              let antes = ap (λ b. suma_segmento b s) k.presente in
              let ahora = ap (λ b. suma_segmento b nuevo) k.presente in
              let fuera = suma_de_otros r av.procesos av'.procesos igual tamanio_en rs no_vuelve in
              let este = ap (medida tamanio_en) esta in
              omega (arith, v.sumada, suma_nueva suma_seg, antes, ahora, fuera, este, p);
        }

    ronda-Compactado : (fin : Avance) → Compactado rs av' fin → Compactado (r ∷ rs) av fin
    ronda-Compactado fin c =
        let d = k.desde in
        let p = ronda.proxima in
        let copia = ronda.copiado.copia in
        let fuera = ronda.copiado.resto in
        record {
          final = c.final;
          intacta = λ a l. c.intacta a (omega arith) ∙ fuera a (ground arith);
          ajenos = λ x cero.
              c.ajenos x (omega (arith, cero)) ∙ igual x (aqui_sym x r (omega (arith, cero)));
          suma =
              let antes = ap (λ b. suma_segmento b s) k.presente in
              let ahora = ap (λ b. suma_segmento b nuevo) k.presente in
              omega (arith, c.suma, suma_nueva suma_seg, antes, ahora);
          presentes = λ pid p found.
              let (q, f) = buscar_proceso-poner r av.procesos s nuevo pid p esta found in
              c.presentes pid q (ap (buscar_proceso pid) ronda.procesos ∙ f);
          movidos = (
            (
              s,
              av.proxima_base_libre,
              esta,
              c.ajenos r no_vuelve ∙ propio,
              λ i l. c.intacta (av.proxima_base_libre + i) (omega arith) ∙ copia i l,
            ),
            Movido-otros r av.procesos av'.procesos fin.procesos (mem av) (mem av') (mem fin) total
                igual (s.base_global + s.tamanio) rs no_vuelve resto (λ a l. fuera a (ground arith))
                c.movidos,
          );
        }

  -- The loop comes to its end.
  pub compactar-Compactado :
      (rs : List Referencia) (av : Avance)
      → IsAvance rs av
      → (fin : Avance) × (compactar lista_ms lista_dir rs av ≡ some (true, fin))
        × Compactado rs av fin
  unfolding compactar
  compactar-Compactado [] av v = (
    av,
    refl,
    record {
      final = v;
      intacta = λ a l. refl;
      ajenos = λ x l. refl;
      suma = refl;
      presentes = λ pid p f. (p, f);
      movidos = tt;
    },
  )
  compactar-Compactado (r ∷ rs) av v =
      let (s, esta, k, resto) = v.apilados in
      let (av', movido, ronda) =
        mover-Ronda total lista_ms lista_dir acotada posiciones r s av k v.conectada esta in
      let (fin, sigue, c) =
        compactar-Compactado rs av' (ronda-IsAvance r rs s av av' v esta k resto ronda) in
      (
        fin,
        rw (esta, compactar, movido) sigue,
        ronda-Compactado r rs s av av' v esta k resto ronda fin c,
      )
