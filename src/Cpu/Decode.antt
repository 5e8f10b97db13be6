-- ===== src/Cpu/Decode.antt =====
-- cpu/src/cpu.c: `decodificar_instruccion`. The pieces of the line are what `string_split` of the
-- commons library gives for it.
use Prim.Native.String.{String}
use text.Mathlib.Text.{◌==◌ as str_eq}
use tp_2026_1c_malloc_and_cr.Base.{
  Bool, true, false, Option, none, some, List, [], ◌∷◌, if◌then◌else◌,
}

-- `t_codigo_instruccion`
pub data Instruccion : Type 0 where
  noop : Instruccion
  set_reg : Instruccion
  mov_in : Instruccion
  mov_out : Instruccion
  sum : Instruccion
  sub : Instruccion
  jnz : Instruccion
  copy_mem : Instruccion
  mutex_create : Instruccion
  mutex_lock : Instruccion
  mutex_unlock : Instruccion
  mem_alloc : Instruccion
  mem_free : Instruccion
  sleep : Instruccion
  std_out : Instruccion
  std_in : Instruccion
  init_proc : Instruccion
  exit_proc : Instruccion
  desconocida : Instruccion

-- `t_instruccion_decodificada`; NULL is `none`.
pub record Decodificada : Type 0 where
  pub identificador_operacion : Instruccion
  pub nombre_operacion : Option String
  pub argumento_operando_destino : Option String
  pub argumento_operando_origen : Option String

-- The chain of comparisons, in the order of the source.
abbrev mnemonicos : List (String × Instruccion)
mnemonicos =
    ("NOOP", noop)
    ∷ ("SET", set_reg)
    ∷ ("MOV_IN", mov_in)
    ∷ ("MOV_OUT", mov_out)
    ∷ ("SUM", sum)
    ∷ ("SUB", sub)
    ∷ ("JNZ", jnz)
    ∷ ("COPY_MEM", copy_mem)
    ∷ ("MUTEX_CREATE", mutex_create)
    ∷ ("MUTEX_LOCK", mutex_lock)
    ∷ ("MUTEX_UNLOCK", mutex_unlock)
    ∷ ("MEM_ALLOC", mem_alloc)
    ∷ ("MEM_FREE", mem_free)
    ∷ ("SLEEP", sleep)
    ∷ ("STDOUT", std_out)
    ∷ ("STDIN", std_in)
    ∷ ("INIT_PROC", init_proc)
    ∷ ("EXIT", exit_proc)
    ∷ []

abbrev comparar : String → List (String × Instruccion) → Instruccion
comparar t [] = desconocida
comparar t ((nombre, i) ∷ resto) = if str_eq t nombre then i else comparar t resto

unfoldable pub identificar : String → Instruccion
identificar t = comparar t mnemonicos

abbrev pub segundo_token : List String → Option String
segundo_token (a ∷ b ∷ resto) = some b
segundo_token _ = none

abbrev pub tercer_token : List String → Option String
tercer_token (a ∷ b ∷ c ∷ resto) = some c
tercer_token _ = none

abbrev pub nula : Decodificada
nula = record {
  identificador_operacion = desconocida;
  nombre_operacion = none;
  argumento_operando_destino = none;
  argumento_operando_origen = none;
}

abbrev pub decodificar_tokens : List String → Decodificada
decodificar_tokens [] = nula
decodificar_tokens (t ∷ resto) = record {
  identificador_operacion = identificar t;
  nombre_operacion = some t;
  argumento_operando_destino = segundo_token (t ∷ resto);
  argumento_operando_origen = tercer_token (t ∷ resto);
}

-- `none` is the line NULL.
unfoldable pub decodificar_instruccion : (String → List String) → Option String → Decodificada
unfolding identificar
decodificar_instruccion string_split none = nula
decodificar_instruccion string_split (some linea) = decodificar_tokens (string_split linea)

-- `identificador_operacion >= INST_MUTEX_CREATE && identificador_operacion <= INST_EXIT`
abbrev pub es_syscall : Instruccion → Bool
es_syscall mutex_create = true
es_syscall mutex_lock = true
es_syscall mutex_unlock = true
es_syscall mem_alloc = true
es_syscall mem_free = true
es_syscall sleep = true
es_syscall std_out = true
es_syscall std_in = true
es_syscall init_proc = true
es_syscall exit_proc = true
es_syscall _ = false
