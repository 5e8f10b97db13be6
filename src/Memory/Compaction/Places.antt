-- ===== src/Memory/Compaction/Places.antt =====
-- The places of the segments in memory: each once, and what they add up to.
use tp_2026_1c_malloc_and_cr.Base.{
  ℕ, zero, suc, ◌+◌, ◌≤◌, ◌≡◌, ◌∙◌, refl, sym, ap, subst, Bool, true, false, Option, none, some,
  inl, inr, Bool-cases, ◌>>=◌, List, [], ◌∷◌, map, ◌==◌, ◌&&◌, if◌then◌else◌, get_elem?, set, All,
  All-set, All-get_elem?, sum_by, sum_by-append, sum_by-set, arith,
}
use tp_2026_1c_malloc_and_cr.Memory.Types.{Segmento, Proceso}
use tp_2026_1c_malloc_and_cr.Memory.Processes.{buscar_proceso}
use tp_2026_1c_malloc_and_cr.Memory.State.{IsSegmento, IsProceso}
use tp_2026_1c_malloc_and_cr.Memory.Compaction.{
  Referencia, segmento_en, poner_segmento, con_tabla, del_primero, otro_proceso, segmentos_de_tabla,
  segmentos_de_procesos,
}

-- A number of the segment at a place, if there is one.
abbrev pub valor : ℕ → (Segmento → ℕ) → Option Segmento → ℕ
valor d g none = d
valor d g (some s) = g s

abbrev pub medida : (Segmento → ℕ) → Option Segmento → ℕ
medida g = valor 0 g

abbrev pub en_memoria : (Segmento → ℕ) → Bool → Segmento → ℕ
en_memoria g true s = 0
en_memoria g false s = g s

sum_by-map :
    {A B : Type 0} (f : B → ℕ) (h : A → B) (rs : List A)
    → sum_by f (map h rs) ≡ sum_by (λ r. f (h r)) rs
sum_by-map f h [] = refl
sum_by-map f h (r ∷ rs) = ap (λ n. f (h r) + n) (sum_by-map f h rs)

-- A sum over the places of a table, from those of the rest.
suma_de_tabla :
    (f : ℕ → ℕ) (b : Bool) (n : ℕ) (resto : List ℕ)
    → sum_by f (if b then map suc resto else 0 ∷ map suc resto)
      ≡ (if b then 0 else f 0) + sum_by (λ j. f (suc j)) resto
suma_de_tabla f true n resto = sum_by-map f suc resto ∙ omega arith
suma_de_tabla f false n resto = ap (λ m. f 0 + m) (sum_by-map f suc resto)

suma_de_procesos :
    (f : Referencia → ℕ) (p : Proceso) (ps : List Proceso)
    → sum_by f (segmentos_de_procesos (p ∷ ps))
      ≡ sum_by (λ j. f (del_primero j)) (segmentos_de_tabla p.tabla_segmentos)
        + sum_by (λ r. f (otro_proceso r)) (segmentos_de_procesos ps)
unfolding segmentos_de_procesos
suma_de_procesos f p ps =
    let tabla = segmentos_de_tabla p.tabla_segmentos in
    let resto = segmentos_de_procesos ps in
    rw (
      sum_by-append f (map del_primero tabla) (map otro_proceso resto),
      sum_by-map f del_primero tabla,
      sum_by-map f otro_proceso resto,
    )

module _ (d : ℕ) (g : Segmento → ℕ) where
  si_en_memoria : (b : Bool) (s : Segmento) → (if b then 0 else g s) ≡ en_memoria g b s
  si_en_memoria true s = refl
  si_en_memoria false s = refl

  suma-tabla :
      (ss : List Segmento)
      → sum_by (λ j. valor d g (get_elem? ss j)) (segmentos_de_tabla ss)
        ≡ sum_by (λ s. en_memoria g s.en_swap s) ss
  unfolding segmentos_de_tabla
  suma-tabla [] = refl
  suma-tabla (s ∷ ss) =
      suma_de_tabla (λ j. valor d g (get_elem? (s ∷ ss) j)) s.en_swap 0 (segmentos_de_tabla ss)
      ∙ omega (arith, si_en_memoria s.en_swap s, suma-tabla ss)

  -- The sum over the places is the sum over the segments that are not in swap.
  pub suma-procesos :
      (ps : List Proceso)
      → sum_by (λ r. valor d g (segmento_en r ps)) (segmentos_de_procesos ps)
        ≡ sum_by (λ p. sum_by (λ s. en_memoria g s.en_swap s) p.tabla_segmentos) ps
  unfolding segmento_en segmentos_de_procesos
  suma-procesos [] = refl
  suma-procesos (p ∷ ps) =
      suma_de_procesos (λ r. valor d g (segmento_en r (p ∷ ps))) p ps
      ∙ omega (arith, suma-tabla p.tabla_segmentos, suma-procesos ps)

-- 1 at one place, 0 at all others.
abbrev pub aqui : ℕ → ℕ → Referencia → ℕ
aqui i j r = if r.proceso == i && r.segmento == j then 1 else 0

pub sum_by_ext :
    {A : Type 0} (f g : A → ℕ) (xs : List A) → ((x : A) → f x ≡ g x) → sum_by f xs ≡ sum_by g xs
sum_by_ext f g [] h = refl
sum_by_ext f g (x ∷ xs) h = omega (arith, h x, sum_by_ext f g xs h)

pub sum_by_cero : {A : Type 0} (f : A → ℕ) (xs : List A) → ((x : A) → f x ≡ 0) → sum_by f xs ≡ 0
sum_by_cero f [] h = refl
sum_by_cero f (x ∷ xs) h = omega (arith, h x, sum_by_cero f xs h)

veces-tabla :
    (j : ℕ) (ss : List Segmento) → sum_by (λ i. if i == j then 1 else 0) (segmentos_de_tabla ss) ≤ 1
unfolding segmentos_de_tabla
veces-tabla j [] = omega arith
veces-tabla zero (s ∷ ss) =
    let e = suma_de_tabla (λ i. if i == zero then 1 else 0) s.en_swap 0 (segmentos_de_tabla ss) in
    let z =
      sum_by_cero (λ (i : ℕ). if suc i == zero then 1 else 0) (segmentos_de_tabla ss)
        (λ i. ground arith) in
    ground (arith, e, z)
veces-tabla (suc j) (s ∷ ss) =
    let e = suma_de_tabla (λ i. if i == suc j then 1 else 0) s.en_swap 0 (segmentos_de_tabla ss) in
    let mismo =
      sum_by_ext (λ i. if suc i == suc j then 1 else 0) (λ i. if i == j then 1 else 0)
        (segmentos_de_tabla ss) (λ i. ground arith) in
    ground (arith, e, mismo, veces-tabla j ss)

-- Every place stands in the list once at most.
pub veces-procesos :
    (i j : ℕ) (ps : List Proceso) → sum_by (aqui i j) (segmentos_de_procesos ps) ≤ 1
unfolding segmentos_de_procesos
veces-procesos i j [] = omega arith
veces-procesos zero j (p ∷ ps) =
    let tabla = segmentos_de_tabla p.tabla_segmentos in
    let resto = segmentos_de_procesos ps in
    let e = suma_de_procesos (aqui zero j) p ps in
    let primero =
      sum_by_ext (λ n. aqui zero j (del_primero n)) (λ n. if n == j then 1 else 0) tabla
        (λ n. ground arith) in
    let otros = sum_by_cero (λ r. aqui zero j (otro_proceso r)) resto (λ r. ground arith) in
    omega (arith, e, primero, otros, veces-tabla j p.tabla_segmentos)
veces-procesos (suc i) j (p ∷ ps) =
    let tabla = segmentos_de_tabla p.tabla_segmentos in
    let resto = segmentos_de_procesos ps in
    let e = suma_de_procesos (aqui (suc i) j) p ps in
    let primero = sum_by_cero (λ n. aqui (suc i) j (del_primero n)) tabla (λ n. ground arith) in
    let otros =
      sum_by_ext (λ r. aqui (suc i) j (otro_proceso r)) (aqui i j) resto (λ r. ground arith) in
    omega (arith, e, primero, otros, veces-procesos i j ps)

get_elem?-set_self :
    {A : Type 0} (xs : List A) (i : ℕ) (v w : A)
    → get_elem? xs i ≡ some v
    → get_elem? (set xs i w) i ≡ some w
get_elem?-set_self [] i v w e = absurd (cc)
get_elem?-set_self (x ∷ xs) zero v w e = refl
get_elem?-set_self (x ∷ xs) (suc i) v w e = get_elem?-set_self xs i v w e

pub get_elem?-set_ne :
    {A : Type 0} (xs : List A) (i j : ℕ) (w : A)
    → (j == i) ≡ false
    → get_elem? (set xs i w) j ≡ get_elem? xs j
get_elem?-set_ne [] i j w n = refl
get_elem?-set_ne (x ∷ xs) zero zero w n = absurd (ground arith)
get_elem?-set_ne (x ∷ xs) zero (suc j) w n = refl
get_elem?-set_ne (x ∷ xs) (suc i) zero w n = refl
get_elem?-set_ne (x ∷ xs) (suc i) (suc j) w n = get_elem?-set_ne xs i j w (ground arith)

-- A segment and its process, at a place.
pub proceso_de :
    (r : Referencia) (ps : List Proceso) (s : Segmento)
    → segmento_en r ps ≡ some s
    → (p : Proceso) × (get_elem? ps r.proceso ≡ some p)
      × (get_elem? p.tabla_segmentos r.segmento ≡ some s)
unfolding segmento_en
proceso_de r ps s = de (get_elem? ps r.proceso)
  where
    de :
        (o : Option Proceso)
        → (o >>= (λ p. get_elem? p.tabla_segmentos r.segmento)) ≡ some s
        → (p : Proceso) × (o ≡ some p) × (get_elem? p.tabla_segmentos r.segmento ≡ some s)
    de none e = absurd (cc)
    de (some p) e = (p, refl, e)

module _ (r : Referencia) (ps : List Proceso) (s s' : Segmento)
    (esta : segmento_en r ps ≡ some s) where
  pub poner_segmento_suma :
      (f : Segmento → ℕ)
      → sum_by (λ p. sum_by f p.tabla_segmentos) (poner_segmento r s' ps) + f s
        ≡ sum_by (λ p. sum_by f p.tabla_segmentos) ps + f s'
  unfolding poner_segmento
  poner_segmento_suma f =
      let (p, ep, es) = proceso_de r ps s esta in
      let t = sum_by-set f p.tabla_segmentos r.segmento s s' es in
      let q = con_tabla (set p.tabla_segmentos r.segmento s') p in
      let u = sum_by-set (λ p. sum_by f p.tabla_segmentos) ps r.proceso p q ep in
      rw (ep, poner_segmento) (omega (arith, t, u))

  pub poner_segmento-All :
      (total : ℕ)
      → All (IsProceso total) ps
      → IsSegmento total s'
      → All (IsProceso total) (poner_segmento r s' ps)
  unfolding poner_segmento
  poner_segmento-All total ok k =
      let (p, ep, es) = proceso_de r ps s esta in
      let q = con_tabla (set p.tabla_segmentos r.segmento s') p in
      let viejo = All-get_elem? (IsProceso total) ps r.proceso p ok ep in
      rw (ep, poner_segmento)
        (All-set (IsProceso total) ps r.proceso q ok
          (All-set (IsSegmento total) p.tabla_segmentos r.segmento s' viejo k))

  pub segmento_en-poner_self : segmento_en r (poner_segmento r s' ps) ≡ some s'
  unfolding segmento_en poner_segmento
  segmento_en-poner_self =
      let (p, ep, es) = proceso_de r ps s esta in
      let q = con_tabla (set p.tabla_segmentos r.segmento s') p in
      rw (
        ep,
        poner_segmento,
        get_elem?-set_self ps r.proceso p q ep,
        get_elem?-set_self p.tabla_segmentos r.segmento s s' es,
      )

  pub segmento_en-poner_ne :
      (x : Referencia)
      → aqui r.proceso r.segmento x ≡ 0
      → segmento_en x (poner_segmento r s' ps) ≡ segmento_en x ps
  unfolding segmento_en poner_segmento
  segmento_en-poner_ne x lejos =
      let (p, ep, es) = proceso_de r ps s esta in
      let q = con_tabla (set p.tabla_segmentos r.segmento s') p in
      elim (Bool-cases (x.proceso == r.proceso)) [
        | inl mismo ↦
            let proceso : x.proceso ≡ r.proceso = ground arith in
            let segmento : (x.segmento == r.segmento) ≡ false = ground arith in
            rw (
              ep,
              poner_segmento,
              proceso,
              get_elem?-set_self ps r.proceso p q ep,
              get_elem?-set_ne p.tabla_segmentos r.segmento x.segmento s' segmento,
              ep,
            )
        | inr otro ↦ rw (ep, poner_segmento, get_elem?-set_ne ps r.proceso x.proceso q otro)
      ]

set_self : {A : Type 0} (xs : List A) (i : ℕ) (v : A) → get_elem? xs i ≡ some v → set xs i v ≡ xs
set_self [] i v e = refl
set_self (x ∷ xs) zero v e = let mismo : x ≡ v = cc in ap (λ y. y ∷ xs) (sym mismo)
set_self (x ∷ xs) (suc i) v e = ap (λ l. x ∷ l) (set_self xs i v e)

-- Writing what is there.
pub poner_segmento_mismo :
    (r : Referencia) (ps : List Proceso) (s : Segmento)
    → segmento_en r ps ≡ some s
    → poner_segmento r s ps ≡ ps
unfolding poner_segmento
poner_segmento_mismo r ps s esta =
    let (p, ep, es) = proceso_de r ps s esta in
    rw (ep, poner_segmento)
      (ap (λ t. set ps r.proceso (con_tabla t p)) (set_self p.tabla_segmentos r.segmento s es)
        ∙ set_self ps r.proceso p ep)

-- A process that was found is found.
buscar_proceso-set :
    (pid i : ℕ) (ps : List Proceso) (viejo p : Proceso) (t : List Segmento)
    → get_elem? ps i ≡ some viejo
    → buscar_proceso pid ps ≡ some p
    → (q : Proceso) × (buscar_proceso pid (set ps i (con_tabla t viejo)) ≡ some q)
unfolding buscar_proceso
buscar_proceso-set pid i [] viejo p t e f = absurd (cc)
buscar_proceso-set pid zero (x ∷ ps) viejo p t e f =
    let mismo : x ≡ viejo = cc in
    elim (Bool-cases (x.pid == pid)) [
      | inl si ↦ (
        con_tabla t viejo,
        subst
            (λ v.
              (if v.pid == pid then some (con_tabla t viejo) else buscar_proceso pid ps)
              ≡ some (con_tabla t viejo))
            mismo (rw si),
      )
      | inr otro ↦ (
        p,
        subst
            (λ v.
              (if v.pid == pid then some (con_tabla t viejo) else buscar_proceso pid ps) ≡ some p)
            mismo (rw otro (cc)),
      )
    ]
buscar_proceso-set pid (suc i) (x ∷ ps) viejo p t e f = elim (Bool-cases (x.pid == pid)) [
  | inl si ↦ (x, rw si)
  | inr otro ↦ let (q, found) = buscar_proceso-set pid i ps viejo p t e (cc) in (q, rw otro found)
]

pub buscar_proceso-poner :
    (r : Referencia) (ps : List Proceso) (s s' : Segmento) (pid : ℕ) (p : Proceso)
    → segmento_en r ps ≡ some s
    → buscar_proceso pid ps ≡ some p
    → (q : Proceso) × (buscar_proceso pid (poner_segmento r s' ps) ≡ some q)
unfolding poner_segmento
buscar_proceso-poner r ps s s' pid p esta found =
    let (viejo, ep, es) = proceso_de r ps s esta in
    let (q, f) =
      buscar_proceso-set pid r.proceso ps viejo p (set viejo.tabla_segmentos r.segmento s') ep
        found in
    (q, rw (ep, poner_segmento) f)
