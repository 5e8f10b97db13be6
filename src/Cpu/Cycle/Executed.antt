-- ===== src/Cpu/Cycle/Executed.antt =====
-- What one instruction leaves: the context of the same process, nothing sent, or a system call sent.
use Prim.Native.String.{String}
use tp_2026_1c_malloc_and_cr.Base.{
  ℕ, ◌≡◌, ◌∙◌, refl, subst, ◌>>=◌, Bool, true, false, Option, none, some, Option-cases, inl, inr,
  List, [], ◌∷◌,
}
use tp_2026_1c_malloc_and_cr.Messages.{int_bytes}
use tp_2026_1c_malloc_and_cr.Messages.Roundtrip.{empaquetar}
use tp_2026_1c_malloc_and_cr.Cpu.Registers.{obtener_registro, leer_valor_registro}
use tp_2026_1c_malloc_and_cr.Cpu.Mmu.{
  FragmentoCpu, mmu_traducir_direccion, fragmentar_acceso_memoria,
}
use tp_2026_1c_malloc_and_cr.Cpu.Contexts.{ContextoCpu, enviar_contexto_a_memoria}
use tp_2026_1c_malloc_and_cr.Cpu.Memory.{
  Cpu, tamanio_registro, leer_fragmentos, asignar, ejecutar_mov_in, ejecutar_mov_out,
  ejecutar_copy_mem,
}
use tp_2026_1c_malloc_and_cr.Cpu.Cycle.Crash.{
  operandos, Falta, Atascado, Falla, Salvo, fragmentar_acceso_memoria-Salvo, ejecutar_mov_out-Salvo,
  ejecutar_copy_mem-Salvo,
}
use tp_2026_1c_malloc_and_cr.Cpu.Decode.{
  Instruccion, noop, set_reg, mov_in, mov_out, sum, sub, jnz, copy_mem, mutex_create, mutex_lock,
  mutex_unlock, mem_alloc, mem_free, sleep, std_out, std_in, init_proc, exit_proc, desconocida,
  es_syscall,
}
use tp_2026_1c_malloc_and_cr.Cpu.Cycle.{
  Entorno, a_memoria, a_scheduler, Estado, de_memoria, paquete_syscall, mandar_syscall,
  ejecutar_syscall, execute, con_cpu, con_contexto,
}

-- There is a context of the same process, unless `F`.
abbrev MismoPid : Type 0 → ℕ → Option (Bool × ContextoCpu) → Type 0
MismoPid F pid none = F
MismoPid F pid (some (bien, c)) = c.pid ≡ pid

asignar-MismoPid :
    (F : Type 0) (n : String) (c : ContextoCpu) (b : ℕ → ℕ)
    → (obtener_registro n ≡ none → F)
    → MismoPid F c.pid (asignar n c b)
asignar-MismoPid F n c b f = elim (Option-cases (obtener_registro n)) [
  | inl nada ↦ rw (nada, asignar) (f nada)
  | inr (r, esta) ↦ rw (esta, asignar) refl
]

ejecutar_mov_in-MismoPid :
    (n : String) (c : ContextoCpu) (cpu : Cpu) (F : Type 0)
    → (obtener_registro n ≡ none → F)
    → (Atascado cpu.sockets_memory_sticks → F)
    → MismoPid F c.pid (ejecutar_mov_in n c cpu)
unfolding ejecutar_mov_in
ejecutar_mov_in-MismoPid n c cpu F f g =
    elim (Option-cases (
      mmu_traducir_direccion cpu.segment_max_size c.registros.si (tamanio_registro n)
        c.tabla_segmentos)) [
          | inl nada ↦ rw (nada, ejecutar_mov_in) refl
          | inr (fisica, esta) ↦
              rw (esta, ejecutar_mov_in)
                (fragmentado
                  (fragmentar_acceso_memoria fisica (tamanio_registro n) cpu.sockets_memory_sticks)
                  (fragmentar_acceso_memoria-Salvo fisica (tamanio_registro n)
                    cpu.sockets_memory_sticks))
        ]
  where
    leido :
        (o : Option (ℕ → ℕ))
        → MismoPid F c.pid (elim o [ none ↦ some (false, c) | some b ↦ asignar n c b ])
    leido none = refl
    leido (some b) = asignar-MismoPid F n c b f

    fragmentado :
        (o : Option (Option (List FragmentoCpu)))
        → Salvo (Option (List FragmentoCpu)) (Atascado cpu.sockets_memory_sticks) o
        → MismoPid F c.pid (elim o [
          | none ↦ none
          | some none ↦ some (false, c)
          | some (some fs) ↦ elim (leer_fragmentos cpu.sticks fs (λ _. 0)) [
            | none ↦ some (false, c)
            | some buffer ↦ asignar n c buffer
          ]
        ])
    fragmentado none h = g h
    fragmentado (some none) h = refl
    fragmentado (some (some fs)) h = leido (leer_fragmentos cpu.sticks fs (λ _. 0))

-- The values of a packet to the scheduler start with the pid.
abbrev ConPid : ℕ → Option (ℕ × List (List ℕ)) → Type 0
ConPid pid none = Unit
ConPid pid (some (codigo, campos)) = (resto : List (List ℕ)) × (campos ≡ int_bytes pid ∷ resto)

abbrev Empieza : Type 0 → ℕ → Option (Option (ℕ × List (List ℕ))) → Type 0
Empieza F pid none = F
Empieza F pid (some p) = ConPid pid p

de_memoria-ConPid :
    (cpu : Cpu) (c : ContextoCpu) (codigo : ℕ) (d o : String)
    → ConPid c.pid (de_memoria cpu c codigo d o)
de_memoria-ConPid cpu c codigo d o =
    elim (Option-cases (
      mmu_traducir_direccion cpu.segment_max_size (leer_valor_registro d c.registros)
        (leer_valor_registro o c.registros) c.tabla_segmentos)) [
          | inl nada ↦ rw (nada, de_memoria) tt
          | inr (fisica, esta) ↦ rw (esta, de_memoria) (_, refl)
        ]

module _ (en : Entorno) (cpu : Cpu) (c : ContextoCpu) where
  paquete_syscall-Empieza :
      (i : Instruccion) (destino origen : Option String)
      → Empieza
          (Falta (operandos i) destino origen)
          c.pid
          (paquete_syscall en cpu c i destino origen)
  unfolding paquete_syscall
  paquete_syscall-Empieza sleep none o = refl
  paquete_syscall-Empieza sleep (some d) o = (_, refl)
  paquete_syscall-Empieza mutex_create none o = refl
  paquete_syscall-Empieza mutex_create (some d) o = (_, refl)
  paquete_syscall-Empieza mutex_lock none o = refl
  paquete_syscall-Empieza mutex_lock (some d) o = (_, refl)
  paquete_syscall-Empieza mutex_unlock none o = refl
  paquete_syscall-Empieza mutex_unlock (some d) o = (_, refl)
  paquete_syscall-Empieza init_proc none o = inl refl
  paquete_syscall-Empieza init_proc (some d) none = inr refl
  paquete_syscall-Empieza init_proc (some d) (some o) = (_, refl)
  paquete_syscall-Empieza exit_proc d o = (_, refl)
  paquete_syscall-Empieza mem_alloc none o = inl refl
  paquete_syscall-Empieza mem_alloc (some d) none = inr refl
  paquete_syscall-Empieza mem_alloc (some d) (some o) = (_, refl)
  paquete_syscall-Empieza mem_free none o = refl
  paquete_syscall-Empieza mem_free (some d) o = (_, refl)
  paquete_syscall-Empieza std_out none o = inl refl
  paquete_syscall-Empieza std_out (some d) none = inr refl
  paquete_syscall-Empieza std_out (some d) (some o) = de_memoria-ConPid cpu c 17 d o
  paquete_syscall-Empieza std_in none o = inl refl
  paquete_syscall-Empieza std_in (some d) none = inr refl
  paquete_syscall-Empieza std_in (some d) (some o) = de_memoria-ConPid cpu c 18 d o
  paquete_syscall-Empieza noop d o = tt
  paquete_syscall-Empieza set_reg d o = tt
  paquete_syscall-Empieza mov_in d o = tt
  paquete_syscall-Empieza mov_out d o = tt
  paquete_syscall-Empieza sum d o = tt
  paquete_syscall-Empieza sub d o = tt
  paquete_syscall-Empieza jnz d o = tt
  paquete_syscall-Empieza copy_mem d o = tt
  paquete_syscall-Empieza desconocida d o = tt

-- Nothing was sent, and the process is still `pid`.
abbrev pub EnCurso : ℕ → Estado → Type 0
EnCurso pid s = (s.envios ≡ []) × (s.contexto.pid ≡ pid)

-- Two packets were sent: the context to Kernel Memory, then one to the scheduler about `pid`.
abbrev pub Devuelto : ℕ → Estado → Type 0
Devuelto pid s =
    (codigo : ℕ) × (campos : List (List ℕ)) × (s.envios
      ≡ a_memoria (enviar_contexto_a_memoria s.contexto)
        ∷ a_scheduler (empaquetar codigo (int_bytes pid ∷ campos))
        ∷ [])
    × (s.contexto.pid ≡ pid)

abbrev pub Segun : Bool → ℕ → Estado → Type 0
Segun true pid s = Devuelto pid s
Segun false pid s = EnCurso pid s

abbrev pub Ejecutado : Type 0 → ℕ → Bool → Option (Bool × Estado) → Type 0
Ejecutado F pid syscall none = F
Ejecutado F pid syscall (some (false, s)) = EnCurso pid s
Ejecutado F pid syscall (some (true, s)) = Segun syscall pid s

mandar_syscall-Ejecutado :
    (F : Type 0) (pid : ℕ) (p : Option (ℕ × List (List ℕ))) (s : Estado)
    → EnCurso pid s
    → ConPid pid p
    → Ejecutado F pid true (some (mandar_syscall p s))
mandar_syscall-Ejecutado F pid none s h k = h
mandar_syscall-Ejecutado F pid (some (codigo, campos)) s (vacio, mismo) (resto, e) =
    (codigo, resto, rw (vacio, e), mismo)

mandada-Ejecutado :
    (F G : Type 0) (pid : ℕ) (r : Option (Option (ℕ × List (List ℕ)))) (s : Estado)
    → (F → G)
    → EnCurso pid s
    → Empieza F pid r
    → Ejecutado G pid true (r >>= λ p. some (mandar_syscall p s))
mandada-Ejecutado F G pid none s f h k = f k
mandada-Ejecutado F G pid (some p) s f h k = mandar_syscall-Ejecutado G pid p s h k

module _ (en : Entorno) (s : Estado) (pid : ℕ) (h : EnCurso pid s) where
  abbrev FallaAqui : Instruccion → Option String → Option String → Type 0
  FallaAqui i d o = Falla i d o s.cpu.sockets_memory_sticks

  ejecutar_syscall-Ejecutado :
      (i : Instruccion) (d o : Option String)
      → Ejecutado (FallaAqui i d o) pid true (ejecutar_syscall en i d o s)
  unfolding ejecutar_syscall
  ejecutar_syscall-Ejecutado i d o =
      let F : Type 0 = Falta (operandos i) d o in
      mandada-Ejecutado F (FallaAqui i d o) pid (paquete_syscall en s.cpu s.contexto i d o) s
        (λ falta. inl falta) h
        (subst (λ p. Empieza F p (paquete_syscall en s.cpu s.contexto i d o)) h.1
          (paquete_syscall-Empieza en s.cpu s.contexto i d o))

  con_contexto-Ejecutado :
      (F : Type 0) (r : Option (Bool × ContextoCpu))
      → MismoPid F s.contexto.pid r
      → Ejecutado F pid false (r >>= λ x. some (con_contexto s x))
  con_contexto-Ejecutado F none k = k
  con_contexto-Ejecutado F (some (true, c)) k = (h.0, k ∙ h.1)
  con_contexto-Ejecutado F (some (false, c)) k = (h.0, k ∙ h.1)

  con_cpu-Ejecutado :
      (F G : Type 0) (r : Option (Bool × Cpu))
      → (F → G)
      → Salvo (Bool × Cpu) F r
      → Ejecutado G pid false (r >>= λ x. some (con_cpu s x))
  con_cpu-Ejecutado F G none f k = f k
  con_cpu-Ejecutado F G (some (true, c)) f k = h
  con_cpu-Ejecutado F G (some (false, c)) f k = h

  pub execute-Ejecutado :
      (i : Instruccion) (d o : Option String)
      → Ejecutado (FallaAqui i d o) pid (es_syscall i) (execute en i d o s)
  unfolding execute
  execute-Ejecutado noop d o = h
  execute-Ejecutado set_reg none o = inl (inl refl)
  execute-Ejecutado set_reg (some d) none = inl (inr refl)
  execute-Ejecutado set_reg (some d) (some o) = h
  execute-Ejecutado sum none o = inl (inl refl)
  execute-Ejecutado sum (some d) none = inl (inr refl)
  execute-Ejecutado sum (some d) (some o) = h
  execute-Ejecutado sub none o = inl (inl refl)
  execute-Ejecutado sub (some d) none = inl (inr refl)
  execute-Ejecutado sub (some d) (some o) = h
  execute-Ejecutado jnz none o = inl (inl refl)
  execute-Ejecutado jnz (some d) none = inl (inr refl)
  execute-Ejecutado jnz (some d) (some o) = h
  execute-Ejecutado mov_in none o = inl refl
  execute-Ejecutado mov_in (some d) o =
      con_contexto-Ejecutado (FallaAqui mov_in (some d) o) (ejecutar_mov_in d s.contexto s.cpu) (
        ejecutar_mov_in-MismoPid d s.contexto s.cpu (FallaAqui mov_in (some d) o)
          (λ nada. inr (inl (d, refl, nada))) (λ atascado. inr (inr atascado)))
  execute-Ejecutado mov_out none o = inl refl
  execute-Ejecutado mov_out (some d) o =
      con_cpu-Ejecutado (Atascado s.cpu.sockets_memory_sticks) (FallaAqui mov_out (some d) o)
        (ejecutar_mov_out d s.contexto s.cpu) (λ atascado. inr atascado)
        (ejecutar_mov_out-Salvo d s.contexto s.cpu)
  execute-Ejecutado copy_mem none o = inl refl
  execute-Ejecutado copy_mem (some d) o =
      con_cpu-Ejecutado (Atascado s.cpu.sockets_memory_sticks) (FallaAqui copy_mem (some d) o)
        (ejecutar_copy_mem en.vecinos en.inicial d s.contexto s.cpu) (λ atascado. inr atascado)
        (ejecutar_copy_mem-Salvo en.vecinos en.inicial d s.contexto s.cpu)
  execute-Ejecutado desconocida d o = h
  execute-Ejecutado mutex_create d o = ejecutar_syscall-Ejecutado mutex_create d o
  execute-Ejecutado mutex_lock d o = ejecutar_syscall-Ejecutado mutex_lock d o
  execute-Ejecutado mutex_unlock d o = ejecutar_syscall-Ejecutado mutex_unlock d o
  execute-Ejecutado mem_alloc d o = ejecutar_syscall-Ejecutado mem_alloc d o
  execute-Ejecutado mem_free d o = ejecutar_syscall-Ejecutado mem_free d o
  execute-Ejecutado sleep d o = ejecutar_syscall-Ejecutado sleep d o
  execute-Ejecutado std_out d o = ejecutar_syscall-Ejecutado std_out d o
  execute-Ejecutado std_in d o = ejecutar_syscall-Ejecutado std_in d o
  execute-Ejecutado init_proc d o = ejecutar_syscall-Ejecutado init_proc d o
  execute-Ejecutado exit_proc d o = ejecutar_syscall-Ejecutado exit_proc d o
