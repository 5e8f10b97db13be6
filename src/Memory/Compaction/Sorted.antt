-- ===== src/Memory/Compaction/Sorted.antt =====
-- The list that the loop goes through: the segments in memory, each once, one after the other.
use tp_2026_1c_malloc_and_cr.Base.{
  ℕ, ◌+◌, ◌≤◌, ◌<◌, ◌≡◌, ◌∙◌, refl, ap, subst, Bool, true, false, ltb, Option, none, some, inl, inr,
  Bool-cases, List, [], ◌∷◌, if◌then◌else◌, All, All-get_elem?, sum_by, length, arith,
}
use tp_2026_1c_malloc_and_cr.Memory.Types.{Segmento, Proceso}
use tp_2026_1c_malloc_and_cr.Memory.State.{
  IsSegmento, IsEnMemoria, IsProceso, cubre_segmento, suma_segmento,
}
use tp_2026_1c_malloc_and_cr.Memory.Compaction.{
  Referencia, segmento_en, segmentos_de_procesos, Orden, base_o, ordenar_por_base_global,
  obtener_lista_temp_ord,
}
use tp_2026_1c_malloc_and_cr.Memory.Compaction.Places.{
  valor, medida, en_memoria, sum_by_cero, suma-procesos, proceso_de,
}
use tp_2026_1c_malloc_and_cr.Memory.Compaction.Round.{IsMovible}
use tp_2026_1c_malloc_and_cr.Memory.Compaction.Packed.{Apilados, suma_de, cubre_en, tamanio_en}

abbrev pub Ordenada : (Referencia → ℕ) → List Referencia → Type 0
Ordenada clave [] = Unit
Ordenada clave (x ∷ xs) = All (λ y. clave x ≤ clave y) xs × Ordenada clave xs

-- `list_sort` keeps the elements, and puts them in order of a key when it compares the keys.
pub record IsListSort (list_sort : Orden) : Type 0 where
  pub mismos :
      (menor : Referencia → Referencia → Bool) (xs : List Referencia) (f : Referencia → ℕ)
      → sum_by f (list_sort menor xs) ≡ sum_by f xs
  pub ordenada :
      (clave : Referencia → ℕ) (xs : List Referencia)
      → Ordenada clave (list_sort (λ a b. ltb (clave a) (clave b)) xs)

-- A segment in memory has at least one byte, and fewer than 2³¹.
abbrev pub TieneTamanio : Bool → Segmento → Type 0
TieneTamanio true s = Unit
TieneTamanio false s = (0 < s.tamanio) × (s.tamanio < 2147483648)

abbrev pub IsPoblado : Proceso → Type 0
IsPoblado p = All (λ s. TieneTamanio s.en_swap s) p.tabla_segmentos

segmento_en-All :
    (P : Segmento → Type 0) (r : Referencia) (ps : List Proceso) (s : Segmento)
    → All (λ p. All P p.tabla_segmentos) ps
    → segmento_en r ps ≡ some s
    → P s
segmento_en-All P r ps s h e =
    let (p, ep, es) = proceso_de r ps s e in
    All-get_elem? P p.tabla_segmentos r.segmento s
      (All-get_elem? (λ p. All P p.tabla_segmentos) ps r.proceso p h ep) es

-- Where a sum is 0 each term is.
pub sum_by_cero-All :
    {A : Type 0} (f : A → ℕ) (xs : List A) → sum_by f xs ≡ 0 → All (λ x. f x ≡ 0) xs
sum_by_cero-All f [] e = tt
sum_by_cero-All f (x ∷ xs) e = (omega (arith, e), sum_by_cero-All f xs (omega (arith, e)))

abbrev pub malo : Segmento → ℕ
malo s = if s.en_swap then 1 else 0

en_memoria-malo : (b : Bool) (s : Segmento) → s.en_swap ≡ b → en_memoria malo b s ≡ 0
en_memoria-malo true s e = refl
en_memoria-malo false s e = rw e

pub suma_malo :
    (ps : List Proceso)
    → sum_by (λ r. valor 1 malo (segmento_en r ps)) (segmentos_de_procesos ps) ≡ 0
suma_malo ps =
    suma-procesos 1 malo ps
    ∙ sum_by_cero (λ p. sum_by (λ s. en_memoria malo s.en_swap s) p.tabla_segmentos) ps
        (λ p.
          sum_by_cero (λ s. en_memoria malo s.en_swap s) p.tabla_segmentos
            (λ s. en_memoria-malo s.en_swap s refl))

esta_en_memoria :
    (o : Option Segmento) → valor 1 malo o ≡ 0 → (s : Segmento) × (o ≡ some s) × (s.en_swap ≡ false)
esta_en_memoria none e = absurd (omega (arith, e))
esta_en_memoria (some s) e = (s, refl, ground arith)

-- What the loop needs of a place.
abbrev pub Vivo : ℕ → List Proceso → Referencia → Type 0
Vivo total ps r = (s : Segmento) × (segmento_en r ps ≡ some s) × IsMovible total 0 s

module _ (total : ℕ) (ps : List Proceso) where
  abbrev base_en : Referencia → ℕ
  base_en r = base_o (segmento_en r ps)

  pub Vivo-All :
      (rs : List Referencia)
      → All (IsProceso total) ps
      → All IsPoblado ps
      → All (λ r. valor 1 malo (segmento_en r ps) ≡ 0) rs
      → All (Vivo total ps) rs
  Vivo-All [] ok poblado h = tt
  Vivo-All (r ∷ rs) ok poblado (e, h) =
      let (s, esta, presente) = esta_en_memoria (segmento_en r ps) e in
      let (dentro, limite) =
        subst (λ b. IsEnMemoria b total s) presente
          (segmento_en-All (IsSegmento total) r ps s ok esta) in
      let (positivo, corto) =
        subst (λ b. TieneTamanio b s) presente
          (segmento_en-All (λ s. TieneTamanio s.en_swap s) r ps s poblado esta) in
      (
        (
          s,
          esta,
          record {
            presente = presente;
            desde = omega arith;
            dentro = dentro;
            limite = limite;
            positivo = positivo;
            corto = corto;
          },
        ),
        Vivo-All rs ok poblado h,
      )

  -- A segment that starts after another and shares no byte with it starts after its end.
  separados :
      (s : Segmento) (rs : List Referencia)
      → 0 < s.tamanio
      → All (Vivo total ps) rs
      → All (λ y. s.base_global ≤ base_en y) rs
      → ((a : ℕ) → cubre_en a s + suma_de (cubre_en a) ps rs ≤ 1)
      → All (λ y. s.base_global + s.tamanio ≤ base_en y) rs
  separados s [] n v l c = tt
  separados s (y ∷ rs) n ((t, e, k), v) (h, l) c =
      let base = ap base_o e in
      let suma = c t.base_global in
      let este = ap (medida (cubre_en t.base_global)) e in
      let p = k.positivo in
      let propio : cubre_en t.base_global t ≡ 1 = ground arith in
      let ajeno : cubre_en t.base_global s ≡ 0 = omega (arith, suma, este, propio) in
      let antes : s.base_global ≤ t.base_global = omega (arith, h, base) in
      let lejos : s.base_global + s.tamanio ≤ t.base_global = ground (arith, ajeno, antes) in
      (omega (arith, lejos, base), separados s rs n v l (λ a. omega (arith, c a)))

  pub apilar :
      (lo : ℕ) (rs : List Referencia)
      → All (Vivo total ps) rs
      → All (λ y. lo ≤ base_en y) rs
      → Ordenada base_en rs
      → ((a : ℕ) → suma_de (cubre_en a) ps rs ≤ 1)
      → Apilados total ps lo rs
  apilar lo [] v l o c = tt
  apilar lo (r ∷ rs) ((s, e, k), v) (h, l) (o, os) c =
      let base = ap base_o e in
      (
        s,
        e,
        record {
          presente = k.presente;
          desde = omega (arith, h, base);
          dentro = k.dentro;
          limite = k.limite;
          positivo = k.positivo;
          corto = k.corto;
        },
        apilar (s.base_global + s.tamanio) rs v
            (separados s rs k.positivo v (subst (λ b. All (λ y. b ≤ base_en y) rs) base o)
              (λ a. let este = ap (medida (cubre_en a)) e in omega (arith, c a, este)))
            os (λ a. omega (arith, c a)),
      )

pub desde_cero : (f : Referencia → ℕ) (rs : List Referencia) → All (λ y. 0 ≤ f y) rs
desde_cero f [] = tt
desde_cero f (r ∷ rs) = (omega arith, desde_cero f rs)

pub en_memoria-cubre :
    (a : ℕ) (b : Bool) (s : Segmento) → en_memoria (cubre_en a) b s ≡ cubre_segmento b s a
en_memoria-cubre a true s = refl
en_memoria-cubre a false s = refl

pub en_memoria-suma : (b : Bool) (s : Segmento) → en_memoria tamanio_en b s ≡ suma_segmento b s
en_memoria-suma true s = refl
en_memoria-suma false s = refl

module _ (list_sort : Orden) (ok : IsListSort list_sort) (ps : List Proceso) where
  abbrev lista : List Referencia
  lista = obtener_lista_temp_ord list_sort ps

  abbrev clave : Referencia → ℕ
  clave r = base_o (segmento_en r ps)

  pub lista_mismos : (f : Referencia → ℕ) → sum_by f lista ≡ sum_by f (segmentos_de_procesos ps)
  unfolding obtener_lista_temp_ord
  lista_mismos f = elim (Bool-cases (ltb 1 (length (segmentos_de_procesos ps)))) [
    | inl varios ↦ rw varios (ok.mismos (ordenar_por_base_global ps) (segmentos_de_procesos ps) f)
    | inr uno ↦ rw uno
  ]

  corta : (rs : List Referencia) → ltb 1 (length rs) ≡ false → Ordenada clave rs
  corta [] e = tt
  corta (r ∷ []) e = (tt, tt)
  corta (r ∷ x ∷ rs) e = absurd (ground arith)

  pub lista-Ordenada : Ordenada clave lista
  unfolding obtener_lista_temp_ord ordenar_por_base_global
  lista-Ordenada = elim (Bool-cases (ltb 1 (length (segmentos_de_procesos ps)))) [
    | inl varios ↦ rw varios (ok.ordenada clave (segmentos_de_procesos ps))
    | inr uno ↦ rw uno (corta (segmentos_de_procesos ps) uno)
  ]
