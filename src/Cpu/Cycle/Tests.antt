-- ===== src/Cpu/Cycle/Tests.antt =====
-- The cycle on a short program. A line is split at its blanks by a table of the lines that occur.
use Prim.Native.String.{String}
use text.Mathlib.Text.{◌==◌ as str_eq}
use tp_2026_1c_malloc_and_cr.Base.{◌≡◌, refl, arith, none, some, List, [], ◌∷◌, if◌then◌else◌}
use tp_2026_1c_malloc_and_cr.Memory.Processes.{registros_en_cero}
use tp_2026_1c_malloc_and_cr.Cpu.Decode.{decodificar_instruccion, set_reg}
use tp_2026_1c_malloc_and_cr.Cpu.Cycle.{
  Entorno, Estado, no_hay, llega, Vuelta, sigue, ciclo_de_instruccion,
}
use tp_2026_1c_malloc_and_cr.Cpu.Cycle.Return.{ciclo_de_instruccion_sin_linea}

abbrev partir : String → List String
partir l =
    if str_eq l "SET AX 3"
    then "SET" ∷ "AX" ∷ "3" ∷ []
    else (if str_eq l "INIT_PROC hijo 2" then "INIT_PROC" ∷ "hijo" ∷ "2" ∷ [] else l ∷ [])

abbrev entorno : Entorno
entorno = record {
  atoi = λ t. if str_eq t "3" then 3 else 0;
  bytes_texto = λ t. 0 ∷ [];
  vecinos = λ i. 0;
  inicial = λ i. 0;
  string_split = partir;
}

abbrev estado : Estado
estado = record {
  contexto = record { pid = 7; registros = registros_en_cero; tabla_segmentos = [] };
  cpu = record { segment_max_size = 64; sockets_memory_sticks = []; sticks = λ s. none };
  envios = [];
}

abbrev corrida : List Vuelta
corrida =
    record { linea = some "SET AX 3"; interrupcion = llega 50 8 }
    ∷ record { linea = some "EXIT"; interrupcion = no_hay }
    ∷ []

abbrev muda : Vuelta
muda = record { linea = none; interrupcion = no_hay }

ciclo_de_instruccion_sin_linea_example :
    ciclo_de_instruccion entorno (muda ∷ record muda { interrupcion = llega 50 8 } ∷ []) estado
    ≡ sigue estado
ciclo_de_instruccion_sin_linea_example =
    ciclo_de_instruccion_sin_linea entorno (muda ∷ record muda { interrupcion = llega 50 8 } ∷ [])
      estado ((refl, tt), ((refl, λ e. absurd (omega (arith, e))), tt))

set_decodificada : decodificar_instruccion partir (some "SET AX 3") ≡ record {
  identificador_operacion = set_reg;
  nombre_operacion = some "SET";
  argumento_operando_destino = some "AX";
  argumento_operando_origen = some "3";
}
unfolding decodificar_instruccion
set_decodificada = refl
