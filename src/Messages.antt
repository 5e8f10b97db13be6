-- ===== src/Messages.antt =====
-- utils/src/paquete.c: the packets in which the modules talk, on the bytes that a socket carries. An
-- `int` in memory is its four bytes, the low one first; a negative one is its 32-bit pattern.
pub mod Roundtrip
pub mod Sending
mod Tests
use tp_2026_1c_malloc_and_cr.Base.{
  ℕ, zero, suc, ◌+◌, ◌*◌, ◌/◌, ◌%◌, Option, none, some, List, [], ◌∷◌, ◌++◌, ℤ, pos, negsuc, length,
  take, drop, ltb, leb, ◌==◌, if◌then◌else◌,
}

abbrev pub int_bytes : ℕ → List ℕ
int_bytes n = (n % 256) ∷ (n / 256 % 256) ∷ (n / 65536 % 256) ∷ (n / 16777216 % 256) ∷ []

-- `memcpy` of an `int` from the front of some bytes, and the bytes after it; `none` where it would
-- read past the end.
abbrev pub leer_int : List ℕ → Option (ℕ × List ℕ)
leer_int (a ∷ b ∷ c ∷ d ∷ resto) = some (a + b * 256 + c * 65536 + d * 16777216, resto)
leer_int _ = none

-- The patterns from here on are negative.
abbrev pub int_negativo : ℕ
int_negativo = 2147483648

-- `t_buffer`
pub record Buffer : Type 0 where
  pub size : ℕ
  pub stream : List ℕ

-- `t_paquete`
pub record Paquete : Type 0 where
  pub codigo_operacion : ℕ
  pub buffer : Buffer

unfoldable pub crear_buffer : Buffer
crear_buffer = record { size = 0; stream = [] }

unfoldable pub crear_paquete : ℕ → Buffer → Paquete
crear_paquete code buffer = record { codigo_operacion = code; buffer = buffer }

-- The size is that of the data.
unfoldable pub agregar_a_paquete : List ℕ → Paquete → Paquete
agregar_a_paquete datos p = record p {
  buffer = record {
    size = p.buffer.size + (length datos + 4);
    stream = p.buffer.stream ++ (int_bytes (length datos) ++ datos);
  };
}

unfoldable pub serializar_paquete : Paquete → List ℕ
serializar_paquete p =
    int_bytes p.codigo_operacion ++ (int_bytes p.buffer.size ++ take p.buffer.size p.buffer.stream)

abbrev pub con_envio : List ℕ → Option (ℤ × List ℕ) → Option (ℤ × List ℕ)
con_envio t none = none
con_envio t (some (codigo, enviados)) = some (codigo, t ++ enviados)

-- The loop of `enviar_paquete` on the bytes that are left. `resultados` are the results of its calls
-- of `send`, each of which passes on as many bytes as it says. The result, and the bytes passed on;
-- `none` while a call has not returned.
unfoldable pub enviar_desde : List ℤ → List ℕ → Option (ℤ × List ℕ)
enviar_desde resultados [] = some (pos 0, [])
enviar_desde [] (b ∷ bs) = none
enviar_desde (negsuc n ∷ rs) (b ∷ bs) = some (negsuc 0, [])
enviar_desde (pos zero ∷ rs) (b ∷ bs) = some (negsuc 0, [])
enviar_desde (pos (suc n) ∷ rs) (b ∷ bs) =
    con_envio (take (suc n) (b ∷ bs)) (enviar_desde rs (drop n bs))

-- The number of bytes, the size and eight more, is an `int`: from 2³¹ on it is negative, the loop is
-- not entered, and nothing is sent.
unfoldable pub enviar_paquete : List ℤ → Paquete → Option (ℤ × List ℕ)
unfolding enviar_desde serializar_paquete
enviar_paquete resultados p =
    if leb int_negativo (p.buffer.size + 8)
    then some (pos 0, [])
    else enviar_desde resultados (serializar_paquete p)

-- What `recibir_paquete` makes of the bytes that arrive before the connection closes: NULL; a list
-- whose first element is the operation code, with the bytes that follow the packet; or a read of bytes
-- that were not received, whose result C does not define.
pub data Recepcion : Type 0 where
  nulo : Recepcion
  indefinido : Recepcion
  recibido : List (List ℕ) → List ℕ → Recepcion

abbrev pub con_valor : List ℕ → Option (List (List ℕ)) → Option (List (List ℕ))
con_valor v none = none
con_valor v (some vs) = some (v ∷ vs)

-- `while (desplazamiento < size)` on the bytes from `desplazamiento` on; `none` where a value would
-- end behind the buffer. A round takes four bytes at least, so their number is enough fuel.
unfoldable pub cortar : ℕ → List ℕ → Option (List (List ℕ))
cortar fuel [] = some []
cortar zero (b ∷ bs) = none
cortar (suc fuel) (b ∷ bs) = elim (leer_int (b ∷ bs)) [
  | none ↦ none
  | some (tamanio, resto) ↦
      let siguientes = con_valor (take tamanio resto) (cortar fuel (drop tamanio resto)) in
      if leb tamanio (length resto) then siguientes else none
]

abbrev pub entregar_valores : List ℕ → Option (List (List ℕ)) → List ℕ → Recepcion
entregar_valores codigo none resto = indefinido
entregar_valores codigo (some vs) resto = recibido (codigo ∷ vs) resto

-- `recibir_buffer` of `size` bytes, and the loop over them.
abbrev pub con_buffer : List ℕ → ℕ → List ℕ → Recepcion
con_buffer codigo size bytes =
    if leb int_negativo size
    then nulo
    else (if leb size (length bytes)
        then entregar_valores codigo (cortar size (take size bytes)) (drop size bytes)
        else nulo)

-- `recv` with MSG_WAITALL gives fewer bytes than asked for only where the connection closes; fewer
-- than an `int` has, but some, pass the test of its result.
abbrev pub recibir_buffer : List ℕ → List ℕ → Recepcion
recibir_buffer codigo [] = nulo
recibir_buffer codigo (b ∷ bs) = elim (leer_int (b ∷ bs)) [
  | none ↦ indefinido
  | some (size, bytes) ↦ con_buffer codigo size bytes
]

unfoldable pub recibir_paquete : List ℕ → Recepcion
unfolding cortar
recibir_paquete [] = nulo
recibir_paquete (b ∷ bs) = elim (leer_int (b ∷ bs)) [
  | none ↦ indefinido
  | some (_, bytes) ↦ recibir_buffer (take 4 (b ∷ bs)) bytes
]
