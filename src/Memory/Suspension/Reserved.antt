-- ===== src/Memory/Suspension/Reserved.antt =====
-- The holes that are reserved for the segments of a process that returns from Swap.
use tp_2026_1c_malloc_and_cr.Base.{
  ℕ, suc, ◌+◌, ◌≤◌, ◌<◌, ◌≡◌, ◌∙◌, refl, sym, ap, subst, Bool, true, false, some, Bool-cases,
  Option-cases, inl, inr, List, [], ◌∷◌, ◌++◌, append_assoc, append_nil, All-imp, get_elem?, ◌==◌,
  All, All-append, All-get_elem?, sum_by, sum_by-append, u32_mod, arith,
}
use tp_2026_1c_malloc_and_cr.Memory.Types.{Segmento, Hueco}
use tp_2026_1c_malloc_and_cr.Memory.Holes.{buscar_hueco_silencioso, consumir_hueco}
use tp_2026_1c_malloc_and_cr.Memory.Holes.Fit.{
  suma_huecos, Encuentra, buscar_hueco_silencioso-Encuentra,
}
use tp_2026_1c_malloc_and_cr.Memory.Holes.Cover.{
  IsHueco, cubre, cubre_huecos, consumir_hueco-All, consumir_hueco-cubre, consumir_hueco-suma,
}
use tp_2026_1c_malloc_and_cr.Memory.State.{
  Km, IsValid, IsProceso, cubre_procesos, suma_procesos, en_rango,
}
use tp_2026_1c_malloc_and_cr.Memory.Suspension.{Reserva, reservar}

abbrev pub cubre_reservas : List Reserva → ℕ → ℕ
cubre_reservas rs a = sum_by (λ r. cubre r.base r.tamanio a) rs

abbrev pub suma_reservas : List Reserva → ℕ
suma_reservas rs = sum_by (λ r. r.tamanio) rs

-- A reservation is for its segment, which is in Swap, and lies in the memory.
pub record IsReserva (total : ℕ) (r : Reserva) : Type 0 where
  pub dentro : r.base + r.tamanio ≤ total
  pub tamanio : r.tamanio ≡ r.segmento.tamanio
  pub afuera : r.segmento.en_swap ≡ true

-- The memory map with the reservations.
pub record Reservado (km : Km) (rs : List Reserva) : Type 0 where
  pub acotada : km.memoria_total < u32_mod
  pub huecos_ok : All (IsHueco km.memoria_total) km.lista_huecos_libres
  pub segmentos_ok : All (IsProceso km.memoria_total) km.procesos
  pub reservas_ok : All (IsReserva km.memoria_total) rs
  pub cubierta :
      (a : ℕ)
      → cubre_huecos km.lista_huecos_libres a + cubre_procesos km.procesos a + cubre_reservas rs a
        ≡ en_rango km.memoria_total a
  pub sumada :
      suma_huecos km.lista_huecos_libres + suma_procesos km.procesos + suma_reservas rs
      ≡ km.memoria_total

pub sin_reservas-Reservado : (km : Km) → IsValid km → Reservado km []
sin_reservas-Reservado km v = record {
  acotada = v.acotada;
  huecos_ok = v.huecos_ok;
  segmentos_ok = v.segmentos_ok;
  reservas_ok = tt;
  cubierta = λ a. omega (arith, v.cubierta a);
  sumada = omega (arith, v.sumada);
}

pub Reservado-sin_reservas : (km : Km) → Reservado km [] → IsValid km
Reservado-sin_reservas km v = record {
  acotada = v.acotada;
  huecos_ok = v.huecos_ok;
  segmentos_ok = v.segmentos_ok;
  cubierta = λ a. omega (arith, v.cubierta a);
  sumada = omega (arith, v.sumada);
}

-- One more reservation.
module _ (km : Km) (rs : List Reserva) (v : Reservado km rs) (j i : ℕ) (h : Hueco) (s : Segmento)
    (afuera : s.en_swap ≡ true) (esta : get_elem? km.lista_huecos_libres i ≡ some h)
    (cabe : s.tamanio ≤ h.tamano) where
  abbrev reserva : Reserva
  reserva = record { base = h.base; tamanio = s.tamanio; indice = j; segmento = s }

  abbrev km_reservado : Km
  km_reservado = record km {
    lista_huecos_libres = consumir_hueco i h s.tamanio km.lista_huecos_libres;
  }

  reserva-Reservado : Reservado km_reservado (rs ++ (reserva ∷ []))
  reserva-Reservado =
      let total = km.memoria_total in
      let hs = km.lista_huecos_libres in
      let ok : IsHueco total h = All-get_elem? (IsHueco total) hs i h v.huecos_ok esta in
      let dentro = ok.0 in
      record {
        acotada = v.acotada;
        huecos_ok = consumir_hueco-All total v.acotada i h s.tamanio hs v.huecos_ok esta cabe;
        segmentos_ok = v.segmentos_ok;
        reservas_ok =
            All-append (IsReserva total) rs _ v.reservas_ok
              (record { dentro = omega arith; tamanio = refl; afuera = afuera }, tt);
        cubierta = λ a. omega (
          arith,
          v.cubierta a,
          consumir_hueco-cubre total v.acotada i h s.tamanio hs a v.huecos_ok esta cabe,
          sum_by-append (λ r. cubre r.base r.tamanio a) rs (reserva ∷ []),
        );
        sumada = omega (
          arith,
          v.sumada,
          consumir_hueco-suma total v.acotada i h s.tamanio hs v.huecos_ok esta cabe,
          sum_by-append (λ r. r.tamanio) rs (reserva ∷ []),
        );
      }

-- The search changes nothing but the holes.
abbrev Resultado : Km → Bool × List Reserva × Km → Type 0
Resultado km (entra, rs, km') =
    Reservado km' rs × (km' ≡ record km { lista_huecos_libres = km'.lista_huecos_libres })

-- The reservations and what is left of the holes share the memory with the segments.
pub reservar-Reservado :
    (j : ℕ) (ss : List Segmento) (rs : List Reserva) (km : Km)
    → Reservado km rs
    → Resultado km (reservar j ss rs km)
unfolding reservar
reservar-Reservado j [] rs km v = (v, refl)
reservar-Reservado j (s ∷ ss) rs km v = elim (Bool-cases s.en_swap) [
  | inr dentro ↦ rw dentro (reservar-Reservado (j + 1) ss rs km v)
  | inl afuera ↦
      let e =
        buscar_hueco_silencioso-Encuentra km.allocation_strategy s.tamanio km.lista_huecos_libres in
      elim (Option-cases
        (buscar_hueco_silencioso km.allocation_strategy s.tamanio km.lista_huecos_libres)) [
          | inl nada ↦ rw (afuera, nada) (v, refl)
          | inr ((i, h), hay) ↦
              let (esta, cabe) = subst (Encuentra s.tamanio km.lista_huecos_libres) hay e in
              rw (afuera, hay)
                (reservar-Reservado (j + 1) ss
                  (rs ++ (reserva km rs v j i h s afuera esta cabe ∷ []))
                  (km_reservado km rs v j i h s afuera esta cabe)
                  (reserva-Reservado km rs v j i h s afuera esta cabe))
        ]
]

-- Each reservation names a segment of the table, and no two the same one.
abbrev pub Lugares : List Segmento → List Reserva → Type 0
Lugares tabla [] = Unit
Lugares tabla (r ∷ rs) =
    (get_elem? tabla r.indice ≡ some r.segmento)
    × All (λ x. (x.indice == r.indice) ≡ false) rs
    × Lugares tabla rs

abbrev pub EsCorta : Reserva → Type 0
EsCorta r = r.segmento.tamanio < 2147483648

desde_otro :
    (j : ℕ) (rs : List Reserva)
    → All (λ x. j + 1 ≤ x.indice) rs
    → All (λ x. (x.indice == j) ≡ false) rs
desde_otro j rs h =
    All-imp (λ x. j + 1 ≤ x.indice) (λ x. (x.indice == j) ≡ false) (λ x l. ground arith) rs h

desde_menos :
    (j : ℕ) (rs : List Reserva) → All (λ x. j + 1 ≤ x.indice) rs → All (λ x. j ≤ x.indice) rs
desde_menos j rs h = All-imp (λ x. j + 1 ≤ x.indice) (λ x. j ≤ x.indice) (λ x l. omega arith) rs h

-- What the loop adds.
abbrev Nuevas : List Segmento → ℕ → List Reserva → List Reserva → Type 0
Nuevas tabla j rs todas =
    (nuevas : List Reserva) × (todas ≡ rs ++ nuevas)
    × Lugares tabla nuevas
    × All (λ x. j ≤ x.indice) nuevas
    × All EsCorta nuevas

una_mas :
    (tabla : List Segmento) (j : ℕ) (rs todas : List Reserva) (r : Reserva)
    → r.indice ≡ j
    → get_elem? tabla r.indice ≡ some r.segmento
    → EsCorta r
    → Nuevas tabla (j + 1) (rs ++ (r ∷ [])) todas
    → Nuevas tabla j rs todas
una_mas tabla j rs todas r aqui esta corta (nuevas, igual, lugares, desde, cortas) = (
  r ∷ nuevas,
  igual ∙ append_assoc rs (r ∷ []) nuevas,
  (
    esta,
    subst (λ n. All (λ x. (x.indice == n) ≡ false) nuevas) (sym aqui) (desde_otro j nuevas desde),
    lugares,
  ),
  (omega (arith, aqui), desde_menos j nuevas desde),
  (corta, cortas),
)

reservar-Nuevas :
    (tabla : List Segmento) (j : ℕ) (ss : List Segmento) (rs : List Reserva) (km : Km)
    → ((i : ℕ) → get_elem? tabla (j + i) ≡ get_elem? ss i)
    → All (λ s. s.tamanio < 2147483648) ss
    → Nuevas tabla j rs (reservar j ss rs km).1
unfolding reservar
reservar-Nuevas tabla j [] rs km h c = ([], sym (append_nil rs), tt, tt, tt)
reservar-Nuevas tabla j (s ∷ ss) rs km h (corto, c) =
    let siguiente : (i : ℕ) → get_elem? tabla (j + 1 + i) ≡ get_elem? ss i = λ i.
      let n : j + suc i ≡ j + 1 + i = omega arith in
      subst (λ k. get_elem? tabla k ≡ get_elem? ss i) n (h (suc i)) in
    let aqui : get_elem? tabla j ≡ some s =
      let n : j + 0 ≡ j = omega arith in subst (λ k. get_elem? tabla k ≡ some s) n (h 0) in
    elim (Bool-cases s.en_swap) [
      | inr dentro ↦
          rw dentro (saltada tabla j rs _ (reservar-Nuevas tabla (j + 1) ss rs km siguiente c))
      | inl afuera ↦
          elim (Option-cases
            (buscar_hueco_silencioso km.allocation_strategy s.tamanio km.lista_huecos_libres)) [
              | inl nada ↦ rw (afuera, nada) ([], sym (append_nil rs), tt, tt, tt)
              | inr ((i, x), hay) ↦
                  rw (afuera, hay)
                    (una_mas tabla j rs _
                      (record { base = x.base; tamanio = s.tamanio; indice = j; segmento = s }) refl
                      aqui corto (reservar-Nuevas tabla (j + 1) ss _ _ siguiente c))
            ]
    ]
  where
    saltada :
        (tabla : List Segmento) (j : ℕ) (rs todas : List Reserva)
        → Nuevas tabla (j + 1) rs todas
        → Nuevas tabla j rs todas
    saltada tabla j rs todas (nuevas, igual, lugares, desde, cortas) =
        (nuevas, igual, lugares, desde_menos j nuevas desde, cortas)

pub reservar-Lugares :
    (ss : List Segmento) (km : Km)
    → All (λ s. s.tamanio < 2147483648) ss
    → Lugares ss (reservar 0 ss [] km).1 × All EsCorta (reservar 0 ss [] km).1
reservar-Lugares ss km c =
    let (nuevas, igual, lugares, desde, cortas) =
      reservar-Nuevas ss 0 ss [] km (λ i. let e : 0 + i ≡ i = omega arith in ap (get_elem? ss) e)
        c in
    (subst (Lugares ss) (sym igual) lugares, subst (All EsCorta) (sym igual) cortas)

pub reservar-Mapa :
    (ss : List Segmento) (km : Km)
    → IsValid km
    → let km' = (reservar 0 ss [] km).2 in
      Reservado km' (reservar 0 ss [] km).1
      × (km' ≡ record km { lista_huecos_libres = km'.lista_huecos_libres })
reservar-Mapa ss km v = reservar-Reservado 0 ss [] km (sin_reservas-Reservado km v)
