-- ===== src/Memory/Holes.antt =====
-- kernel_memory/src/huecos.c: the list of free holes. A pointer into the list is the index of its
-- element, which is what the callers hold while they keep `mutex_huecos`.
pub mod Fit
pub mod Cover
use Prim.Native.String.{String}
use text.Mathlib.Text.{◌==◌ as str_eq}
use tp_2026_1c_malloc_and_cr.Base.{
  ℕ, ◌+◌, ◌-◌, ◌%◌, Bool, true, false, ◌&&◌, Option, none, some, List, [], ◌∷◌, ◌++◌, leb, ltb,
  ◌==◌, if◌then◌else◌, u32_mod, add32, sub32, set, erase_at,
}
use tp_2026_1c_malloc_and_cr.Memory.Types.{Hueco, ResultadoHueco, Aviso, iniciar_compactacion}

-- The `limite` of `tamano` bytes from `base`: `base + tamano - 1` in `uint32_t`.
abbrev pub limite_de : ℕ → ℕ → ℕ
limite_de base tamano = (base + tamano + (u32_mod - 1)) % u32_mod

abbrev pub nuevo_hueco : ℕ → ℕ → Hueco
nuevo_hueco base tamano = record { base = base; limite = limite_de base tamano; tamano = tamano }

unfoldable pub agregar_hueco_sinmtx : ℕ → ℕ → List Hueco → ResultadoHueco × List Hueco
agregar_hueco_sinmtx base tamano huecos = (
  record { base = base; limite = limite_de base tamano },
  huecos ++ (nuevo_hueco base tamano ∷ []),
)

-- `agregar_hueco_libre` locks `mutex_huecos` for the push. The lock is a plain mutex: a thread that
-- already holds it (the first argument) waits for itself, and the call does not return.
unfoldable pub agregar_hueco_libre :
    Bool → ℕ → ℕ → List Hueco → Option (ResultadoHueco × List Hueco)
unfolding agregar_hueco_sinmtx
agregar_hueco_libre true base tamano huecos = none
agregar_hueco_libre false base tamano huecos = some (agregar_hueco_sinmtx base tamano huecos)

unfoldable pub quitar_y_liberar_hueco : ℕ → List Hueco → List Hueco
quitar_y_liberar_hueco index huecos = erase_at huecos index

-- The loop of `agregar_hueco_ms`, from index `i` on; `none` where it finds no hole to extend.
pub buscar_limite : ℕ → ℕ → List Hueco → Option (ℕ × Hueco)
buscar_limite buscado i [] = none
buscar_limite buscado i (h ∷ hs) =
    if h.limite == buscado then some (i, h) else buscar_limite buscado (i + 1) hs

unfoldable pub agregar_hueco_ms : ℕ → ℕ → List Hueco → List Hueco
unfolding buscar_limite quitar_y_liberar_hueco agregar_hueco_sinmtx
agregar_hueco_ms base tamano huecos = elim (buscar_limite (sub32 base 1) 0 huecos) [
  | none ↦ (agregar_hueco_sinmtx base tamano huecos).1
  | some (i, h) ↦
      (agregar_hueco_sinmtx h.base (add32 h.tamano tamano) (quitar_y_liberar_hueco i huecos)).1
]

abbrev pub hueco_consumido : ℕ → Hueco → Hueco
hueco_consumido tamano h = record {
  base = add32 h.base tamano;
  limite = limite_de (add32 h.base tamano) (sub32 h.tamano tamano);
  tamano = sub32 h.tamano tamano;
}

-- The hole `h` at index `i` loses its first `tamano` bytes; an empty one leaves the list.
unfoldable pub consumir_hueco : ℕ → Hueco → ℕ → List Hueco → List Hueco
consumir_hueco i h tamano huecos =
    let h' = hueco_consumido tamano h in
    if h'.tamano == 0 then erase_at huecos i else set huecos i h'

-- What the search loops carry: the best hole so far, with its index, and the free bytes seen.
pub record Busqueda : Type 0 where
  pub elegido : Option (ℕ × Hueco)
  pub total_huecos : ℕ

-- Whether a hole of size `t` replaces the choice so far; `mejor` compares with the choice's size.
abbrev pub reemplaza : (ℕ → ℕ → Bool) → ℕ → Option (ℕ × Hueco) → Bool
reemplaza mejor t none = true
reemplaza mejor t (some (i, h)) = mejor t h.tamano

abbrev pub elegir : (ℕ → ℕ → Bool) → ℕ → ℕ → Hueco → Option (ℕ × Hueco) → Option (ℕ × Hueco)
elegir mejor tamano i h m =
    if leb tamano h.tamano && reemplaza mejor h.tamano m then some (i, h) else m

unfoldable pub recorrer : (ℕ → ℕ → Bool) → ℕ → ℕ → List Hueco → Busqueda → Busqueda
recorrer mejor tamano i [] b = b
recorrer mejor tamano i (h ∷ hs) b = recorrer mejor tamano (i + 1) hs (record {
  elegido = elegir mejor tamano i h b.elegido;
  total_huecos = add32 b.total_huecos h.tamano;
})

abbrev pub busqueda_vacia : Busqueda
busqueda_vacia = record { elegido = none; total_huecos = 0 }

-- The tail of both searches: with no hole, compaction is asked for if the free bytes suffice.
pub avisos_de_busqueda : ℕ → ℕ → ℕ → Busqueda → List Aviso
avisos_de_busqueda tamano pid id_segmento b = elim b.elegido [
  | some _ ↦ []
  | none ↦
      if leb tamano b.total_huecos then iniciar_compactacion pid id_segmento tamano ∷ [] else []
]

unfoldable pub buscar_hueco_best_fit : ℕ → ℕ → ℕ → List Hueco → Option (ℕ × Hueco) × List Aviso
unfolding recorrer avisos_de_busqueda
buscar_hueco_best_fit tamano pid id_segmento huecos =
    let b = recorrer ltb tamano 0 huecos busqueda_vacia in
    (b.elegido, avisos_de_busqueda tamano pid id_segmento b)

unfoldable pub buscar_hueco_worst_fit : ℕ → ℕ → ℕ → List Hueco → Option (ℕ × Hueco) × List Aviso
unfolding recorrer avisos_de_busqueda
buscar_hueco_worst_fit tamano pid id_segmento huecos =
    let b = recorrer (λ x y. ltb y x) tamano 0 huecos busqueda_vacia in
    (b.elegido, avisos_de_busqueda tamano pid id_segmento b)

-- `strategy` is `km->allocation_strategy`.
unfoldable pub buscar_hueco : String → ℕ → ℕ → ℕ → List Hueco → Option (ℕ × Hueco) × List Aviso
buscar_hueco strategy tamano pid id_segmento huecos =
    if str_eq strategy "BEST"
    then buscar_hueco_best_fit tamano pid id_segmento huecos
    else buscar_hueco_worst_fit tamano pid id_segmento huecos

-- conexiones.c, `buscar_hueco_silencioso`: the same choice, with no message.
unfoldable pub buscar_hueco_silencioso : String → ℕ → List Hueco → Option (ℕ × Hueco)
unfolding recorrer
buscar_hueco_silencioso strategy tamano huecos =
    if str_eq strategy "BEST"
    then (recorrer ltb tamano 0 huecos busqueda_vacia).elegido
    else (recorrer (λ x y. ltb y x) tamano 0 huecos busqueda_vacia).elegido

unfoldable pub vaciar_lista_de_huecos : List Hueco → List Hueco
vaciar_lista_de_huecos huecos = []
