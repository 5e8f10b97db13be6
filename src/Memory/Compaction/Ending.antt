-- ===== src/Memory/Compaction/Ending.antt =====
-- The end of `iniciar_compactacion`: the map with one hole, and the new segment.
use tp_2026_1c_malloc_and_cr.Base.{
  ℕ, ◌-◌, ◌≤◌, ◌<◌, ◌≡◌, ◌∙◌, refl, ap, subst, Bool, true, false, ◌&&◌, ltb, Option, some, inl, inr,
  Bool-cases, List, [], ◌∷◌, ◌==◌, if◌then◌else◌, All, u32_mod, sub32, ℤ, pos, arith,
}
use tp_2026_1c_malloc_and_cr.Stick.{copiar_de}
use tp_2026_1c_malloc_and_cr.Fragments.Store.{Sticks, copiar_de_ext}
use tp_2026_1c_malloc_and_cr.Memory.Types.{Segmento, Proceso, Hueco, ResultadoHueco}
use tp_2026_1c_malloc_and_cr.Memory.Holes.{
  nuevo_hueco, limite_de, agregar_hueco_libre, agregar_hueco_sinmtx, vaciar_lista_de_huecos,
}
use tp_2026_1c_malloc_and_cr.Memory.State.{
  Km, Particion, IsValid, IsProceso, cubre_procesos, suma_procesos, en_rango,
}
use tp_2026_1c_malloc_and_cr.Memory.Segments.{crear_segmento}
use tp_2026_1c_malloc_and_cr.Memory.Compaction.{
  Referencia, segmento_en, Orden, obtener_lista_temp_ord, Avance, reubicado, compactar,
  terminar_compactacion, iniciar_compactacion,
}
use tp_2026_1c_malloc_and_cr.Memory.Compaction.Places.{aqui}
use tp_2026_1c_malloc_and_cr.Memory.Compaction.Packed.{veces, Movido}

-- What holds at every element of a list holds at every element of another with no more of each place.
Veces-de :
    (P : Referencia → Type 0) (r : Referencia) (ys : List Referencia)
    → 0 < veces r ys
    → All P ys
    → P r
Veces-de P r [] n h = absurd (omega (arith, n))
Veces-de P r (y ∷ ys) n (p, h) =
    elim (Bool-cases (y.proceso == r.proceso && y.segmento == r.segmento)) [
      | inl si ↦ subst P (mismo y r (ground arith) (ground arith)) p
      | inr otro ↦ Veces-de P r ys (ground arith) h
    ]
  where
    mismo : (y r : Referencia) → y.proceso ≡ r.proceso → y.segmento ≡ r.segmento → y ≡ r
    mismo y r e f = ap (λ i. record y { proceso = i }) e ∙ ap (λ j. record r { segmento = j }) f

pub veces-All :
    (P : Referencia → Type 0) (ys xs : List Referencia)
    → ((r : Referencia) → veces r xs ≤ veces r ys)
    → All P ys
    → All P xs
veces-All P ys [] n h = tt
veces-All P ys (x ∷ xs) n h =
    let yo : aqui x.proceso x.segmento x ≡ 1 = ground arith in
    let mias = n x in
    (
      Veces-de P x ys (omega (arith, mias, yo)) h,
      veces-All P ys xs (λ r. let m = n r in omega (arith, m)) h,
    )

-- A segment in memory is at a new base, and its bytes are what they were.
abbrev pub Conserva : List Proceso → (ℕ → ℕ) → List Proceso → (ℕ → ℕ) → Referencia → Type 0
Conserva ps f ps' g x =
    (s : Segmento) × (b : ℕ) × (segmento_en x ps ≡ some s)
    × (segmento_en x ps' ≡ some (reubicado s b))
    × (copiar_de g b s.tamanio ≡ copiar_de f s.base_global s.tamanio)

pub Movido-Conserva :
    (ps ps' : List Proceso) (f g : ℕ → ℕ) (x : Referencia)
    → Movido ps f ps' g x
    → Conserva ps f ps' g x
Movido-Conserva ps ps' f g x (s, b, e, e', copia) =
    (s, b, e, e', copiar_de_ext g f b s.base_global s.tamanio copia)

abbrev pub hueco_final : Bool → ℕ → ℕ → List Hueco
hueco_final true base gran = nuevo_hueco base gran ∷ []
hueco_final false base gran = []

-- The state between the loop and the new segment: one hole, if there is a free byte.
abbrev pub compacto : Km → Avance → Km
compacto km av =
    let gran = sub32 km.memoria_total av.proxima_base_libre in
    record km {
      lista_huecos_libres = hueco_final (ltb 0 gran) av.proxima_base_libre gran;
      procesos = av.procesos;
    }

libres :
    (b mutex_huecos : Bool) (base gran : ℕ) (huecos : List Hueco)
    → mutex_huecos ≡ false
    → (h : ResultadoHueco) × ((if b
          then agregar_hueco_libre mutex_huecos base gran (vaciar_lista_de_huecos huecos)
          else some (record { base = 0; limite = 0 }, vaciar_lista_de_huecos huecos))
        ≡ some (h, hueco_final b base gran))
unfolding agregar_hueco_sinmtx agregar_hueco_libre vaciar_lista_de_huecos
libres true m base gran huecos e = (record { base = base; limite = limite_de base gran }, rw e)
libres false m base gran huecos e = (record { base = 0; limite = 0 }, refl)

pub terminar-crear :
    (pid id t : ℕ) (av : Avance) (km km' : Km) (c : ℤ)
    → km.mutex_huecos ≡ false
    → crear_segmento pid id t (compacto km av) ≡ some (c, km')
    → terminar_compactacion pid id t av km ≡ some (pos 1, km', av.sticks)
unfolding terminar_compactacion
terminar-crear pid id t av km km' c libre creado =
    let gran = sub32 km.memoria_total av.proxima_base_libre in
    let (h, e) =
      libres (ltb 0 gran) km.mutex_huecos av.proxima_base_libre gran km.lista_huecos_libres libre in
    rw (e, creado)

pub iniciar-terminar :
    (list_sort : Orden) (pid id t : ℕ) (km : Km) (sticks : Sticks) (av : Avance)
    (r : Option (ℤ × Km × Sticks))
    → compactar km.lista_ms km.lista_dir_global_ms
        (obtener_lista_temp_ord list_sort km.procesos)
        (record { procesos = km.procesos; sticks = sticks; proxima_base_libre = 0 })
      ≡ some (true, av)
    → terminar_compactacion pid id t av km ≡ r
    → iniciar_compactacion list_sort pid id t km sticks ≡ r
unfolding iniciar_compactacion
iniciar-terminar list_sort pid id t km sticks av r hecho fin = rw (iniciar_compactacion, hecho) fin

-- The map after the loop.
pub compacto-IsValid :
    (km : Km) (av : Avance)
    → km.memoria_total < u32_mod
    → av.proxima_base_libre ≤ km.memoria_total
    → All (IsProceso km.memoria_total) av.procesos
    → ((a : ℕ) → cubre_procesos av.procesos a ≡ en_rango av.proxima_base_libre a)
    → suma_procesos av.procesos ≡ av.proxima_base_libre
    → IsValid (compacto km av)
compacto-IsValid km av acotada techo ok cubierta sumada =
    de (ltb 0 (sub32 km.memoria_total av.proxima_base_libre)) refl
  where
    de :
        (b : Bool)
        → ltb 0 (sub32 km.memoria_total av.proxima_base_libre) ≡ b
        → Particion km.memoria_total
            (hueco_final b av.proxima_base_libre (sub32 km.memoria_total av.proxima_base_libre))
            av.procesos
    de true e =
        let gran : sub32 km.memoria_total av.proxima_base_libre
            ≡ km.memoria_total - av.proxima_base_libre =
          omega arith in
        record {
          acotada = acotada;
          huecos_ok = ((omega (arith, gran), refl), tt);
          segmentos_ok = ok;
          cubierta = λ a. let c = cubierta a in rw gran (ground (arith, c));
          sumada = omega (arith, gran, sumada);
        }
    de false e =
        let lleno : km.memoria_total ≡ av.proxima_base_libre = ground arith in
        record {
          acotada = acotada;
          huecos_ok = tt;
          segmentos_ok = ok;
          cubierta = λ a. let c = cubierta a in rw lleno (ground (arith, c));
          sumada = omega (arith, lleno, sumada);
        }
