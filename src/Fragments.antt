-- ===== src/Fragments.antt =====
-- The loop that cuts an access to the global address space at the borders of the Memory Sticks. It
-- stands twice in the source, with its own element types: `calcular_dir_local_ms` of
-- kernel_memory/src/memory_stick.c and `fragmentar_acceso_memoria` of cpu/src/instrucciones.c.
pub mod Total
pub mod Store
use tp_2026_1c_malloc_and_cr.Base.{
  ℕ, zero, suc, ◌+◌, ◌-◌, Bool, true, false, ◌&&◌, Option, none, some, List, [], ◌∷◌, leb, ltb,
  ◌==◌, if◌then◌else◌, u32_mod, add32, sub32,
}

-- `int` from `uint32_t`: from 2³¹ on the value is negative, and the loop is not entered.
abbrev pub bytes_iniciales : ℕ → ℕ
bytes_iniciales tamano = if ltb tamano 2147483648 then tamano else 0

-- `base` and `limite` are the fields of a stick's entry; `hacer` builds a fragment from the entry, the
-- local address, the size and the offset in the access.
module _ {A F : Type 0} (base limite : A → ℕ) (hacer : A → ℕ → ℕ → ℕ → F) where
  -- The first entry whose range holds the address.
  unfoldable pub buscar_ms : ℕ → List A → Option A
  buscar_ms dir [] = none
  buscar_ms dir (m ∷ ms) =
      if leb (base m) dir && leb dir (limite m) then some m else buscar_ms dir ms

  -- `(limite - base + 1) - dir_local`, in `uint32_t`
  abbrev pub espacio_disponible : ℕ → A → ℕ
  espacio_disponible dir m = sub32 (add32 (sub32 (limite m) (base m)) 1) (sub32 dir (base m))

  abbrev pub bytes_a_copiar : ℕ → ℕ → A → ℕ
  bytes_a_copiar dir restantes m =
      if ltb restantes (espacio_disponible dir m) then restantes else espacio_disponible dir m

  abbrev pub con_fragmento : F → Option (Option (List F)) → Option (Option (List F))
  con_fragmento f none = none
  con_fragmento f (some none) = some none
  con_fragmento f (some (some fs)) = some (some (f ∷ fs))

  -- The rounds of `while (bytes_restantes > 0)`. `none`: the fuel ran out; `some none`: the source
  -- returns NULL, since no entry holds the address.
  unfoldable pub fragmentar : ℕ → ℕ → ℕ → ℕ → List A → Option (Option (List F))
  fragmentar fuel dir zero offset ms = some (some [])
  fragmentar zero dir (suc restantes) offset ms = none
  fragmentar (suc fuel) dir (suc restantes) offset ms = elim (buscar_ms dir ms) [
    | none ↦ some none
    | some m ↦
        let n = bytes_a_copiar dir (suc restantes) m in
        con_fragmento (hacer m (sub32 dir (base m)) n offset)
          (fragmentar fuel (add32 dir n) (suc restantes - n) (offset + n) ms)
  ]
