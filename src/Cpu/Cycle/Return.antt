-- ===== src/Cpu/Cycle/Return.antt =====
-- How the CPU gives a process back.
use Prim.Native.String.{String}
use tp_2026_1c_malloc_and_cr.Base.{
  ℕ, ◌≡◌, ◌≢◌, ◌∙◌, refl, ap, arith, ◌++◌, false, Option, none, List, [], ◌∷◌, ◌==◌, All,
}
use tp_2026_1c_malloc_and_cr.Cpu.Memory.{Cpu}
use tp_2026_1c_malloc_and_cr.Cpu.Cycle.Crash.{Falla}
use tp_2026_1c_malloc_and_cr.Cpu.Decode.{decodificar_instruccion}
use tp_2026_1c_malloc_and_cr.Cpu.Cycle.{
  Entorno, Estado, execute, Interrupcion, no_hay, cortada, llega, Vuelta, Resultado, caida, sigue,
  termina, atender_interrupcion, despues_de, vuelta_de_ciclo, ciclo_de_instruccion,
}
use tp_2026_1c_malloc_and_cr.Cpu.Cycle.Executed.{EnCurso, Devuelto}

-- What a turn or a run of the cycle may leave: nothing was sent yet, or the process was given back, or
-- `F`.
abbrev pub Deja : Type 0 → ℕ → Resultado → Type 0
Deja F pid caida = F
Deja F pid (sigue s) = EnCurso pid s
Deja F pid (termina s) = Devuelto pid s

-- The instruction of a line cannot be executed in a state.
abbrev pub FallaLinea : Entorno → Option String → Estado → Type 0
FallaLinea en linea s =
    let d = decodificar_instruccion en.string_split linea in
    Falla d.identificador_operacion d.argumento_operando_destino d.argumento_operando_origen
      s.cpu.sockets_memory_sticks

-- The line at which a run crashes, after the turns before it.
abbrev pub Cae : Entorno → List Vuelta → Estado → Type 0
Cae en vs s =
    (antes : List Vuelta) × (v : Vuelta) × (resto : List Vuelta) × (t : Estado) × (vs
      ≡ antes ++ (v ∷ resto))
    × (ciclo_de_instruccion en antes s ≡ sigue t)
    × FallaLinea en v.linea t

abbrev pub Devuelve : Entorno → List Vuelta → Estado → ℕ → Type 0
Devuelve en vs s pid = Deja (Cae en vs s) pid (ciclo_de_instruccion en vs s)

-- No interrupt, or one for another process.
abbrev pub IsAjena : ℕ → Interrupcion → Type 0
IsAjena pid no_hay = Unit
IsAjena pid cortada = Unit
IsAjena pid (llega codigo p) = p ≢ pid

IsAjena-sigue :
    (i : Interrupcion) (s : Estado) → IsAjena s.contexto.pid i → atender_interrupcion i s ≡ sigue s
unfolding atender_interrupcion
IsAjena-sigue no_hay s h = refl
IsAjena-sigue cortada s h = refl
IsAjena-sigue (llega codigo p) s h =
    let otro : (p == s.contexto.pid) ≡ false = ground (arith, h) in rw otro

vuelta_de_ciclo_sin_linea :
    (en : Entorno) (i : Interrupcion) (s : Estado)
    → vuelta_de_ciclo en (record { linea = none; interrupcion = i }) s ≡ atender_interrupcion i s
unfolding vuelta_de_ciclo decodificar_instruccion execute despues_de
vuelta_de_ciclo_sin_linea en i s = refl

-- While Kernel Memory has no line for the process, and what interrupts come are for other processes,
-- the cycle goes on and on at the same instruction: it neither changes anything nor tells anyone.
pub ciclo_de_instruccion_sin_linea :
    (en : Entorno) (vs : List Vuelta) (s : Estado)
    → All (λ v. (v.linea ≡ none) × IsAjena s.contexto.pid v.interrupcion) vs
    → ciclo_de_instruccion en vs s ≡ sigue s
unfolding ciclo_de_instruccion
ciclo_de_instruccion_sin_linea en [] s h = refl
ciclo_de_instruccion_sin_linea en (v ∷ vs) s ((linea, nadie), h) =
    let vuelta : vuelta_de_ciclo en v s ≡ sigue s =
      ap (λ l. vuelta_de_ciclo en (record { linea = l; interrupcion = v.interrupcion }) s) linea
      ∙ vuelta_de_ciclo_sin_linea en v.interrupcion s
      ∙ IsAjena-sigue v.interrupcion s nadie in
    rw (vuelta, ciclo_de_instruccion) (ciclo_de_instruccion_sin_linea en vs s h)
