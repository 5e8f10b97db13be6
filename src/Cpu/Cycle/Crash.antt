-- ===== src/Cpu/Cycle/Crash.antt =====
-- When an instruction makes the CPU crash, or never ends.
use Prim.Native.String.{String}
use tp_2026_1c_malloc_and_cr.Base.{
  ℕ, zero, suc, ◌+◌, ◌-◌, ◌≤◌, ◌≡◌, arith, ◌==◌, Bool, false, Option, none, some, Option-cases,
  Bool-cases, inl, inr, ◌⊎◌, List, add32, sub32,
}
use tp_2026_1c_malloc_and_cr.Fragments.{
  buscar_ms, espacio_disponible, bytes_a_copiar, con_fragmento, fragmentar, bytes_iniciales,
}
use tp_2026_1c_malloc_and_cr.Cpu.Registers.{obtener_registro, leer_valor_registro}
use tp_2026_1c_malloc_and_cr.Cpu.Mmu.{
  MsConectado, FragmentoCpu, base_conectado, limite_conectado, fragmento_cpu,
  mmu_traducir_direccion, fragmentar_acceso_memoria,
}
use tp_2026_1c_malloc_and_cr.Cpu.Contexts.{ContextoCpu}
use tp_2026_1c_malloc_and_cr.Cpu.Memory.{
  Cpu, tamanio_registro, leer_para_copiar, escribir_fragmentos, bytes_de, con_sticks,
  copiar_memoria, ejecutar_mov_out, ejecutar_copy_mem,
}
use tp_2026_1c_malloc_and_cr.Cpu.Decode.{
  Instruccion, noop, set_reg, mov_in, mov_out, sum, sub, jnz, copy_mem, mutex_create, mutex_lock,
  mutex_unlock, mem_alloc, mem_free, sleep, std_out, std_in, init_proc, exit_proc, desconocida,
}

-- The operands of an instruction.
abbrev pub operandos : Instruccion → ℕ
operandos noop = 0
operandos set_reg = 2
operandos mov_in = 1
operandos mov_out = 1
operandos sum = 2
operandos sub = 2
operandos jnz = 2
operandos copy_mem = 1
operandos mutex_create = 1
operandos mutex_lock = 1
operandos mutex_unlock = 1
operandos mem_alloc = 2
operandos mem_free = 1
operandos sleep = 1
operandos std_out = 2
operandos std_in = 2
operandos init_proc = 2
operandos exit_proc = 0
operandos desconocida = 0

-- One of the first `n` operands is missing.
abbrev pub Falta : ℕ → Option String → Option String → Type 0
Falta zero destino origen = ⊥
Falta (suc zero) destino origen = destino ≡ none
Falta (suc (suc n)) destino origen = (destino ≡ none) ⊎ (origen ≡ none)

-- A stick's entry holds an address, and has no room there: the whole address space, whose size is 0
-- in `uint32_t`.
abbrev pub Atascado : List MsConectado → Type 0
Atascado ms =
    (dir : ℕ) × (m : MsConectado) × (buscar_ms base_conectado limite_conectado fragmento_cpu dir ms
      ≡ some m)
    × (espacio_disponible base_conectado limite_conectado fragmento_cpu dir m ≡ 0)

abbrev pub FallaEn : Instruccion → Option String → List MsConectado → Type 0
FallaEn mov_in destino ms =
    ((n : String) × (destino ≡ some n) × (obtener_registro n ≡ none)) ⊎ Atascado ms
FallaEn mov_out destino ms = Atascado ms
FallaEn copy_mem destino ms = Atascado ms
FallaEn i destino ms = ⊥

-- An operand is missing, MOV_IN has an unknown register, or an access to memory does not advance.
abbrev pub Falla : Instruccion → Option String → Option String → List MsConectado → Type 0
Falla i destino origen ms = Falta (operandos i) destino origen ⊎ FallaEn i destino ms

-- There is a result, unless `F`.
abbrev pub Salvo : (A : Type 0) → Type 0 → Option A → Type 0
Salvo A F none = F
Salvo A F (some x) = Unit

de_falla : (A F : Type 0) → F → (r : Option A) → Salvo A F r
de_falla A F h none = h
de_falla A F h (some x) = tt

con_fragmento-Salvo :
    (F : Type 0) (f : FragmentoCpu) (r : Option (Option (List FragmentoCpu)))
    → Salvo (Option (List FragmentoCpu)) F r
    → Salvo
        (Option (List FragmentoCpu))
        F
        (con_fragmento base_conectado limite_conectado fragmento_cpu f r)
con_fragmento-Salvo F f none h = h
con_fragmento-Salvo F f (some none) h = tt
con_fragmento-Salvo F f (some (some fs)) h = tt

fragmentar-Salvo :
    (ms : List MsConectado) (fuel dir n o : ℕ)
    → n ≤ fuel
    → Salvo
        (Option (List FragmentoCpu))
        (Atascado ms)
        (fragmentar base_conectado limite_conectado fragmento_cpu fuel dir n o ms)
unfolding fragmentar
fragmentar-Salvo ms fuel dir zero o l = tt
fragmentar-Salvo ms zero dir (suc n) o l = absurd (omega arith)
fragmentar-Salvo ms (suc fuel) dir (suc n) o l =
    elim (Option-cases (buscar_ms base_conectado limite_conectado fragmento_cpu dir ms)) [
      | inl nadie ↦ rw (nadie, fragmentar) tt
      | inr (m, esta) ↦
          let espacio = espacio_disponible base_conectado limite_conectado fragmento_cpu dir m in
          let k : ℕ = bytes_a_copiar base_conectado limite_conectado fragmento_cpu dir (suc n) m in
          elim (Bool-cases (espacio == 0)) [
            | inl lleno ↦
                let cero : espacio ≡ 0 = ground (arith, lleno) in
                de_falla (Option (List FragmentoCpu)) (Atascado ms) (dir, m, esta, cero) _
            | inr hay ↦
                let avanza : suc n - k ≤ fuel = ground (arith, hay, l) in
                rw (esta, fragmentar)
                  (con_fragmento-Salvo (Atascado ms) (fragmento_cpu m (sub32 dir m.base_global) k o)
                    _ (fragmentar-Salvo ms fuel (add32 dir k) (suc n - k) (o + k) avanza))
          ]
    ]

pub fragmentar_acceso_memoria-Salvo :
    (dir tamanio : ℕ) (ms : List MsConectado)
    → Salvo (Option (List FragmentoCpu)) (Atascado ms) (fragmentar_acceso_memoria dir tamanio ms)
unfolding fragmentar_acceso_memoria
fragmentar_acceso_memoria-Salvo dir tamanio ms =
    fragmentar-Salvo ms (bytes_iniciales tamanio) dir (bytes_iniciales tamanio) 0 (omega arith)

module _ (F : Type 0) (cpu : Cpu) where
  escrito-Salvo :
      (buffer : ℕ → ℕ) (o : Option (Option (List FragmentoCpu)))
      → Salvo (Option (List FragmentoCpu)) F o
      → Salvo (Bool × Cpu) F (elim o [
        | none ↦ none
        | some none ↦ some (false, cpu)
        | some (some fs) ↦ con_sticks cpu (escribir_fragmentos buffer fs cpu.sticks)
      ])
  escrito-Salvo buffer none h = h
  escrito-Salvo buffer (some none) h = tt
  escrito-Salvo buffer (some (some fs)) h = tt

pub ejecutar_mov_out-Salvo :
    (n : String) (c : ContextoCpu) (cpu : Cpu)
    → Salvo (Bool × Cpu) (Atascado cpu.sockets_memory_sticks) (ejecutar_mov_out n c cpu)
unfolding ejecutar_mov_out
ejecutar_mov_out-Salvo n c cpu =
    elim (Option-cases (
      mmu_traducir_direccion cpu.segment_max_size c.registros.di (tamanio_registro n)
        c.tabla_segmentos)) [
          | inl nada ↦ rw (nada, ejecutar_mov_out) tt
          | inr (fisica, esta) ↦
              rw (esta, ejecutar_mov_out)
                (escrito-Salvo (Atascado cpu.sockets_memory_sticks) cpu
                  (bytes_de (leer_valor_registro n c.registros))
                  (fragmentar_acceso_memoria fisica (tamanio_registro n) cpu.sockets_memory_sticks)
                  (fragmentar_acceso_memoria-Salvo fisica (tamanio_registro n)
                    cpu.sockets_memory_sticks))
        ]

copiar_memoria-Salvo :
    (vecinos inicial : ℕ → ℕ) (origen destino tamanio : ℕ) (cpu : Cpu)
    → Salvo
        (Bool × Cpu)
        (Atascado cpu.sockets_memory_sticks)
        (copiar_memoria vecinos inicial origen destino tamanio cpu)
unfolding copiar_memoria
copiar_memoria-Salvo vecinos inicial origen destino tamanio cpu =
    leido (fragmentar_acceso_memoria origen tamanio cpu.sockets_memory_sticks)
      (fragmentar_acceso_memoria-Salvo origen tamanio cpu.sockets_memory_sticks)
  where
    copiado :
        (o : Option (ℕ → ℕ))
        → Salvo (Bool × Cpu) (Atascado cpu.sockets_memory_sticks) (elim o [
          | none ↦ some (false, cpu)
          | some buffer ↦
              elim (fragmentar_acceso_memoria destino tamanio cpu.sockets_memory_sticks) [
                | none ↦ none
                | some none ↦ some (false, cpu)
                | some (some fs') ↦ con_sticks cpu (escribir_fragmentos buffer fs' cpu.sticks)
              ]
        ])
    copiado none = tt
    copiado (some buffer) =
        escrito-Salvo (Atascado cpu.sockets_memory_sticks) cpu buffer
          (fragmentar_acceso_memoria destino tamanio cpu.sockets_memory_sticks)
          (fragmentar_acceso_memoria-Salvo destino tamanio cpu.sockets_memory_sticks)

    leido :
        (o : Option (Option (List FragmentoCpu)))
        → Salvo (Option (List FragmentoCpu)) (Atascado cpu.sockets_memory_sticks) o
        → Salvo (Bool × Cpu) (Atascado cpu.sockets_memory_sticks) (elim o [
          | none ↦ none
          | some none ↦ some (false, cpu)
          | some (some fs) ↦ elim (leer_para_copiar vecinos cpu.sticks fs inicial) [
            | none ↦ some (false, cpu)
            | some buffer ↦
                elim (fragmentar_acceso_memoria destino tamanio cpu.sockets_memory_sticks) [
                  | none ↦ none
                  | some none ↦ some (false, cpu)
                  | some (some fs') ↦ con_sticks cpu (escribir_fragmentos buffer fs' cpu.sticks)
                ]
          ]
        ])
    leido none h = h
    leido (some none) h = tt
    leido (some (some fs)) h = copiado (leer_para_copiar vecinos cpu.sticks fs inicial)

pub ejecutar_copy_mem-Salvo :
    (vecinos inicial : ℕ → ℕ) (n : String) (c : ContextoCpu) (cpu : Cpu)
    → Salvo
        (Bool × Cpu)
        (Atascado cpu.sockets_memory_sticks)
        (ejecutar_copy_mem vecinos inicial n c cpu)
unfolding ejecutar_copy_mem
ejecutar_copy_mem-Salvo vecinos inicial n c cpu =
    let tamanio = leer_valor_registro n c.registros in
    let max = cpu.segment_max_size in
    elim (Option-cases (mmu_traducir_direccion max c.registros.si tamanio c.tabla_segmentos)) [
      | inl nada ↦ rw (nada, ejecutar_copy_mem) tt
      | inr (origen, si) ↦
          elim (Option-cases
            (mmu_traducir_direccion max c.registros.di tamanio c.tabla_segmentos)) [
              | inl nada ↦ rw (si, ejecutar_copy_mem, nada) tt
              | inr (destino, di) ↦
                  rw (si, ejecutar_copy_mem, di)
                    (copiar_memoria-Salvo vecinos inicial origen destino tamanio cpu)
            ]
    ]
