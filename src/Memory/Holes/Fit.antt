-- ===== src/Memory/Holes/Fit.antt =====
-- What the searches of huecos.c find: the smallest (BEST) or the largest (WORST) hole that fits, and
-- when compaction is asked for.
use Prim.Native.String.{String}
use text.Mathlib.Text.{◌==◌ as str_eq}
use tp_2026_1c_malloc_and_cr.Base.{
  ℕ, suc, ◌+◌, ◌%◌, ◌≤◌, ◌<◌, ◌≡◌, refl, ap, subst, ◌⊎◌, inl, inr, Bool-cases, Bool, true, false,
  Option, none, some, List, [], ◌∷◌, arith, leb, ltb, if◌then◌else◌, u32_mod, add32, get_elem?, All,
  sum_by,
}
use tp_2026_1c_malloc_and_cr.Memory.Types.{Hueco, Aviso, iniciar_compactacion}
use tp_2026_1c_malloc_and_cr.Memory.Holes.{
  Busqueda, recorrer, elegir, busqueda_vacia, avisos_de_busqueda, buscar_hueco_best_fit,
  buscar_hueco_worst_fit, buscar_hueco, buscar_hueco_silencioso,
}

-- The free bytes of a list of holes.
abbrev pub suma_huecos : List Hueco → ℕ
suma_huecos = sum_by λ h. h.tamano

-- What a choice must be: a hole of the list that fits and that no other fitting one beats, or
-- nothing if none fits.
abbrev pub IsEleccion : (ℕ → ℕ → Type 0) → ℕ → List Hueco → Option (ℕ × Hueco) → Type 0
IsEleccion Beats t hs none = All (λ h'. h'.tamano < t) hs
IsEleccion Beats t hs (some (i, h)) =
    (get_elem? hs i ≡ some h)
    × (t ≤ h.tamano)
    × All (λ h'. (h'.tamano < t) ⊎ Beats h.tamano h'.tamano) hs

-- The message that goes with it.
abbrev pub avisos_esperados : ℕ → ℕ → ℕ → List Hueco → Option (ℕ × Hueco) → List Aviso
avisos_esperados t pid id hs (some _) = []
avisos_esperados t pid id hs none =
    if leb t (suma_huecos hs) then iniciar_compactacion pid id t ∷ [] else []

recorrer-total :
    (mejor : ℕ → ℕ → Bool) (t i : ℕ) (hs : List Hueco) (b : Busqueda)
    → b.total_huecos < u32_mod
    → (recorrer mejor t i hs b).total_huecos ≡ (b.total_huecos + suma_huecos hs) % u32_mod
unfolding recorrer
recorrer-total mejor t i [] b l = omega arith
recorrer-total mejor t i (h ∷ hs) b l = omega (
  arith,
  recorrer-total mejor t (i + 1) hs
      (record {
        elegido = elegir mejor t i h b.elegido;
        total_huecos = add32 b.total_huecos h.tamano;
      })
      (omega arith),
)

-- The choice is the one carried in, or stands in the part of the list that was walked.
abbrev IsFrom : ℕ → ℕ → List Hueco → Option (ℕ × Hueco) → Option (ℕ × Hueco) → Type 0
IsFrom t i hs m none = Unit
IsFrom t i hs m (some (k, h)) =
    (m ≡ some (k, h)) ⊎ ((j : ℕ) × (k ≡ i + j) × (get_elem? hs j ≡ some h) × (t ≤ h.tamano))

elegir-cases :
    (mejor : ℕ → ℕ → Bool) (t i k : ℕ) (h g : Hueco) (m : Option (ℕ × Hueco))
    → elegir mejor t i h m ≡ some (k, g)
    → (m ≡ some (k, g)) ⊎ ((k ≡ i) × (h ≡ g) × (t ≤ g.tamano))
elegir-cases mejor t i k h g none e = ground arith
elegir-cases mejor t i k h g (some n) e = ground arith

IsFrom-later :
    (mejor : ℕ → ℕ → Bool) (t i : ℕ) (h : Hueco) (hs : List Hueco) (m o : Option (ℕ × Hueco))
    → IsFrom t (i + 1) hs (elegir mejor t i h m) o
    → IsFrom t i (h ∷ hs) m o
IsFrom-later mejor t i h hs m none f = tt
IsFrom-later mejor t i h hs m (some (k, g)) (inl e) = elim (elegir-cases mejor t i k h g m e) [
  | inl old ↦ inl old
  | inr (at, same, fits) ↦ inr (0, omega arith, ap some same, fits)
]
IsFrom-later mejor t i h hs m (some (k, g)) (inr (j, e, q, l)) = inr (suc j, omega arith, q, l)

IsFrom-start : (t i : ℕ) (m : Option (ℕ × Hueco)) → IsFrom t i [] m m
IsFrom-start t i none = tt
IsFrom-start t i (some (k, h)) = inl refl

recorrer-IsFrom :
    (mejor : ℕ → ℕ → Bool) (t i : ℕ) (hs : List Hueco) (b : Busqueda)
    → IsFrom t i hs b.elegido (recorrer mejor t i hs b).elegido
unfolding recorrer
recorrer-IsFrom mejor t i [] b = IsFrom-start t i b.elegido
recorrer-IsFrom mejor t i (h ∷ hs) b =
    IsFrom-later mejor t i h hs b.elegido _ (recorrer-IsFrom mejor t (i + 1) hs _)

module _ (mejor : ℕ → ℕ → Bool) (Beats : ℕ → ℕ → Type 0) (Beats_refl : (x : ℕ) → Beats x x)
    (Beats_of_true : (x y z : ℕ) → mejor x y ≡ true → Beats y z → Beats x z)
    (Beats_of_false : (x y : ℕ) → mejor x y ≡ false → Beats y x) where
  abbrev IsUnbeaten : ℕ → Hueco → Option (ℕ × Hueco) → Type 0
  IsUnbeaten t h' none = h'.tamano < t
  IsUnbeaten t h' (some (i, h)) = (h'.tamano < t) ⊎ Beats h.tamano h'.tamano

  elegir-keeps :
      (t i : ℕ) (h h' : Hueco) (m : Option (ℕ × Hueco))
      → IsUnbeaten t h' m
      → IsUnbeaten t h' (elegir mejor t i h m)
  elegir-keeps t i h h' none u = ground arith
  elegir-keeps t i h h' (some (k, g)) (inl u) = ground arith
  elegir-keeps t i h h' (some (k, g)) (inr u) =
      ground (arith, Beats_of_true h.tamano g.tamano h'.tamano)

  elegir_self :
      (t i : ℕ) (h : Hueco) (m : Option (ℕ × Hueco)) → IsUnbeaten t h (elegir mejor t i h m)
  elegir_self t i h none = ground (arith, Beats_refl h.tamano)
  elegir_self t i h (some (k, g)) =
      ground (arith, Beats_refl h.tamano, Beats_of_false h.tamano g.tamano)

  recorrer-keeps :
      (t i : ℕ) (hs : List Hueco) (b : Busqueda) (h' : Hueco)
      → IsUnbeaten t h' b.elegido
      → IsUnbeaten t h' (recorrer mejor t i hs b).elegido
  unfolding recorrer
  recorrer-keeps t i [] b h' u = u
  recorrer-keeps t i (h ∷ hs) b h' u =
      recorrer-keeps t (i + 1) hs _ h' (elegir-keeps t i h h' b.elegido u)

  recorrer-IsUnbeaten :
      (t i : ℕ) (hs : List Hueco) (b : Busqueda)
      → All (λ h'. IsUnbeaten t h' (recorrer mejor t i hs b).elegido) hs
  unfolding recorrer
  recorrer-IsUnbeaten t i [] b = tt
  recorrer-IsUnbeaten t i (h ∷ hs) b = (
    recorrer-keeps t (i + 1) hs _ h (elegir_self t i h b.elegido),
    recorrer-IsUnbeaten t (i + 1) hs _,
  )

  IsEleccion-intro :
      (t : ℕ) (hs : List Hueco) (o : Option (ℕ × Hueco))
      → IsFrom t 0 hs none o
      → All (λ h'. IsUnbeaten t h' o) hs
      → IsEleccion Beats t hs o
  IsEleccion-intro t hs none f u = u
  IsEleccion-intro t hs (some (k, h)) (inl e) u = absurd (cc)
  IsEleccion-intro t hs (some (k, h)) (inr (j, e, q, l)) u =
      let e' : j ≡ k = omega arith in (subst (λ n. get_elem? hs n ≡ some h) e' q, l, u)

  -- The loop of the searches, from an empty choice, makes a choice that nothing beats.
  pub recorrer-IsEleccion :
      (t : ℕ) (hs : List Hueco)
      → IsEleccion Beats t hs (recorrer mejor t 0 hs busqueda_vacia).elegido
  recorrer-IsEleccion t hs =
      IsEleccion-intro t hs _ (recorrer-IsFrom mejor t 0 hs busqueda_vacia)
        (recorrer-IsUnbeaten t 0 hs busqueda_vacia)

avisos-eq :
    (mejor : ℕ → ℕ → Bool) (t pid id : ℕ) (hs : List Hueco)
    → suma_huecos hs < u32_mod
    → avisos_de_busqueda t pid id (recorrer mejor t 0 hs busqueda_vacia)
      ≡ avisos_esperados t pid id hs (recorrer mejor t 0 hs busqueda_vacia).elegido
unfolding avisos_de_busqueda
avisos-eq mejor t pid id hs l =
    let total : (recorrer mejor t 0 hs busqueda_vacia).total_huecos ≡ suma_huecos hs =
      omega (arith, recorrer-total mejor t 0 hs busqueda_vacia) in
    ground (arith, total)

-- BEST FIT picks a smallest hole that fits, nothing exactly when none fits, and asks for compaction
-- exactly when none fits and the free bytes suffice. The free bytes are assumed below 2³².
pub buscar_hueco_best_fit-IsEleccion :
    (tamano pid id_segmento : ℕ) (huecos : List Hueco)
    → suma_huecos huecos < u32_mod
    → let (elegido, avisos) = buscar_hueco_best_fit tamano pid id_segmento huecos in
      IsEleccion ◌≤◌ tamano huecos elegido
      × (avisos ≡ avisos_esperados tamano pid id_segmento huecos elegido)
unfolding buscar_hueco_best_fit
buscar_hueco_best_fit-IsEleccion tamano pid id_segmento huecos l = (
  recorrer-IsEleccion ltb ◌≤◌ (λ x. omega arith) (λ x y z p q. ground arith) (λ x y p. ground arith)
      tamano huecos,
  avisos-eq ltb tamano pid id_segmento huecos l,
)

-- WORST FIT picks a largest hole that fits, nothing exactly when none fits, and asks for compaction
-- exactly when none fits and the free bytes suffice. The free bytes are assumed below 2³².
pub buscar_hueco_worst_fit-IsEleccion :
    (tamano pid id_segmento : ℕ) (huecos : List Hueco)
    → suma_huecos huecos < u32_mod
    → let (elegido, avisos) = buscar_hueco_worst_fit tamano pid id_segmento huecos in
      IsEleccion (λ x y. y ≤ x) tamano huecos elegido
      × (avisos ≡ avisos_esperados tamano pid id_segmento huecos elegido)
unfolding buscar_hueco_worst_fit
buscar_hueco_worst_fit-IsEleccion tamano pid id_segmento huecos l = (
  recorrer-IsEleccion (λ x y. ltb y x) (λ x y. y ≤ x) (λ x. omega arith) (λ x y z p q. ground arith)
      (λ x y p. ground arith) tamano huecos,
  avisos-eq (λ x y. ltb y x) tamano pid id_segmento huecos l,
)

-- Either search, and the silent one, finds a hole exactly when one fits: what the callers rely on.
abbrev pub Encuentra : ℕ → List Hueco → Option (ℕ × Hueco) → Type 0
Encuentra t hs none = All (λ h. h.tamano < t) hs
Encuentra t hs (some (i, h)) = (get_elem? hs i ≡ some h) × (t ≤ h.tamano)

IsEleccion-Encuentra :
    (Beats : ℕ → ℕ → Type 0) (t : ℕ) (hs : List Hueco) (o : Option (ℕ × Hueco))
    → IsEleccion Beats t hs o
    → Encuentra t hs o
IsEleccion-Encuentra Beats t hs none e = e
IsEleccion-Encuentra Beats t hs (some (i, h)) e = (e.0, e.1)

pub recorrer_best-Encuentra :
    (t : ℕ) (hs : List Hueco) → Encuentra t hs (recorrer ltb t 0 hs busqueda_vacia).elegido
recorrer_best-Encuentra t hs = IsEleccion-Encuentra ◌≤◌ t hs _ (
    recorrer-IsEleccion ltb ◌≤◌ (λ x. omega arith) (λ x y z p q. ground arith)
      (λ x y p. ground arith) t hs)

pub recorrer_worst-Encuentra :
    (t : ℕ) (hs : List Hueco)
    → Encuentra t hs (recorrer (λ x y. ltb y x) t 0 hs busqueda_vacia).elegido
recorrer_worst-Encuentra t hs =
    IsEleccion-Encuentra (λ x y. y ≤ x) t hs _
      (recorrer-IsEleccion (λ x y. ltb y x) (λ x y. y ≤ x) (λ x. omega arith)
        (λ x y z p q. ground arith) (λ x y p. ground arith) t hs)

pub buscar_hueco-Encuentra :
    (strategy : String) (t pid id : ℕ) (hs : List Hueco)
    → Encuentra t hs (buscar_hueco strategy t pid id hs).0
unfolding buscar_hueco buscar_hueco_best_fit buscar_hueco_worst_fit
buscar_hueco-Encuentra strategy t pid id hs = elim (Bool-cases (str_eq strategy "BEST")) [
  | inl best ↦ rw best (recorrer_best-Encuentra t hs)
  | inr worst ↦ rw worst (recorrer_worst-Encuentra t hs)
]

pub buscar_hueco_silencioso-Encuentra :
    (strategy : String) (t : ℕ) (hs : List Hueco)
    → Encuentra t hs (buscar_hueco_silencioso strategy t hs)
unfolding buscar_hueco_silencioso
buscar_hueco_silencioso-Encuentra strategy t hs = elim (Bool-cases (str_eq strategy "BEST")) [
  | inl best ↦ rw best (recorrer_best-Encuentra t hs)
  | inr worst ↦ rw worst (recorrer_worst-Encuentra t hs)
]
