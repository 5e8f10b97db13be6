-- ===== src/Messages/Roundtrip.antt =====
-- What is packed is received.
use native.Mathlib.Nat.{zero-add}
use tp_2026_1c_malloc_and_cr.Base.{
  ℕ, zero, suc, ◌+◌, ◌*◌, ◌/◌, ◌%◌, ◌≤◌, ◌<◌, ◌≡◌, ◌∙◌, refl, sym, ap, true, false, some, List, [],
  ◌∷◌, ◌++◌, length, take, drop, leb, arith, length-append, append_assoc, append_nil, sum_by,
}
use tp_2026_1c_malloc_and_cr.Messages.{
  int_bytes, int_negativo, Paquete, crear_buffer, crear_paquete, agregar_a_paquete,
  serializar_paquete, recibido, cortar, con_buffer, recibir_paquete,
}

-- The four bytes of an `int` give it back.
pub int_bytes_lem :
    (n : ℕ)
    → n < 4294967296
    → n % 256 + n / 256 % 256 * 256 + n / 65536 % 256 * 65536 + n / 16777216 % 256 * 16777216 ≡ n
int_bytes_lem n h = omega arith

module _ {ℓ} {A : Type ℓ} where
  take_all : (xs : List A) → take (length xs) xs ≡ xs
  take_all [] = refl
  take_all (x ∷ xs) = ap (λ l. x ∷ l) (take_all xs)

  pub take-append : (xs ys : List A) → take (length xs) (xs ++ ys) ≡ xs
  take-append [] ys = refl
  take-append (x ∷ xs) ys = ap (λ l. x ∷ l) (take-append xs ys)

  pub drop-append : (xs ys : List A) → drop (length xs) (xs ++ ys) ≡ ys
  drop-append [] ys = refl
  drop-append (x ∷ xs) ys = drop-append xs ys

-- One value, as it stands in a buffer, and a list of them.
abbrev pub campo : List ℕ → List ℕ
campo datos = int_bytes (length datos) ++ datos

abbrev pub campos : List (List ℕ) → List ℕ
campos [] = []
campos (d ∷ ds) = campo d ++ campos ds

abbrev pub agregar_todos : List (List ℕ) → Paquete → Paquete
agregar_todos [] p = p
agregar_todos (d ∷ ds) p = agregar_todos ds (agregar_a_paquete d p)

-- The packet of a code and some values, built as the source builds each of its packets.
abbrev pub empaquetar : ℕ → List (List ℕ) → Paquete
empaquetar code ds = agregar_todos ds (crear_paquete code crear_buffer)

abbrev pub tamano_campos : List (List ℕ) → ℕ
tamano_campos ds = sum_by (λ d. length d + 4) ds

pub length-campos : (ds : List (List ℕ)) → length (campos ds) ≡ tamano_campos ds
length-campos [] = refl
length-campos (d ∷ ds) = omega (arith, length-append d (campos ds), length-campos ds)

agregar_todos-size :
    (ds : List (List ℕ)) (p : Paquete)
    → (agregar_todos ds p).buffer.size ≡ p.buffer.size + tamano_campos ds
unfolding agregar_a_paquete
agregar_todos-size [] p = omega arith
agregar_todos-size (d ∷ ds) p = omega (arith, agregar_todos-size ds (agregar_a_paquete d p))

pub empaquetar-size :
    (code : ℕ) (ds : List (List ℕ)) → (empaquetar code ds).buffer.size ≡ tamano_campos ds
unfolding crear_paquete crear_buffer
empaquetar-size code ds =
    agregar_todos-size ds (crear_paquete code crear_buffer) ∙ zero-add (tamano_campos ds)

agregar_todos-stream :
    (ds : List (List ℕ)) (p : Paquete)
    → (agregar_todos ds p).buffer.stream ≡ p.buffer.stream ++ campos ds
unfolding agregar_a_paquete
agregar_todos-stream [] p = sym (append_nil p.buffer.stream)
agregar_todos-stream (d ∷ ds) p =
    agregar_todos-stream ds (agregar_a_paquete d p)
    ∙ append_assoc p.buffer.stream (campo d) (campos ds)

agregar_todos_codigo :
    (ds : List (List ℕ)) (p : Paquete) → (agregar_todos ds p).codigo_operacion ≡ p.codigo_operacion
unfolding agregar_a_paquete
agregar_todos_codigo [] p = refl
agregar_todos_codigo (d ∷ ds) p = agregar_todos_codigo ds (agregar_a_paquete d p)

-- The bytes of a packet: the code, the size of its values, and the values.
pub serializar-empaquetar :
    (code : ℕ) (ds : List (List ℕ))
    → serializar_paquete (empaquetar code ds)
      ≡ int_bytes code ++ (int_bytes (tamano_campos ds) ++ campos ds)
unfolding serializar_paquete crear_paquete crear_buffer
serializar-empaquetar code ds =
    let vacio : Paquete = crear_paquete code crear_buffer in
    let medido : take (tamano_campos ds) (campos ds) ≡ campos ds =
      rw (← length-campos ds) (take_all (campos ds)) in
    rw (agregar_todos_codigo ds vacio, agregar_todos-size ds vacio, agregar_todos-stream ds vacio)
      (rw (zero-add (tamano_campos ds))
        (ap (λ l. int_bytes code ++ (int_bytes (tamano_campos ds) ++ l)) medido))

cortar-campos :
    (fuel : ℕ) (ds : List (List ℕ))
    → tamano_campos ds ≤ fuel
    → tamano_campos ds < int_negativo
    → cortar fuel (campos ds) ≡ some ds
unfolding cortar
cortar-campos fuel [] f l = refl
cortar-campos zero (d ∷ ds) f l = absurd (omega arith)
cortar-campos (suc fuel) (d ∷ ds) f l =
    let cabe : leb (length d) (length (d ++ campos ds)) ≡ true =
      ground (arith, length-append d (campos ds)) in
    rw (
      int_bytes_lem (length d) (omega arith),
      cabe,
      take-append d (campos ds),
      drop-append d (campos ds),
      cortar-campos fuel ds (omega arith) (omega arith),
    )

con_buffer-campos :
    (codigo : List ℕ) (ds : List (List ℕ)) (resto : List ℕ)
    → tamano_campos ds < int_negativo
    → con_buffer codigo (tamano_campos ds) (campos ds ++ resto) ≡ recibido (codigo ∷ ds) resto
con_buffer-campos codigo ds resto l =
    let n = tamano_campos ds in
    let mide = length-campos ds in
    let positivo : leb int_negativo n ≡ false = ground arith in
    let entero : leb n (length (campos ds ++ resto)) ≡ true =
      ground (arith, mide, length-append (campos ds) resto) in
    let valores : take n (campos ds ++ resto) ≡ campos ds =
      rw (← mide) (take-append (campos ds) resto) in
    let sigue : drop n (campos ds ++ resto) ≡ resto = rw (← mide) (drop-append (campos ds) resto) in
    rw (positivo, entero, valores, sigue, cortar-campos n ds (omega arith) l)

-- A packet that is built from values and arrives whole is received: its code, and the values in order,
-- each with its own bytes, and nothing of what follows it. The values take less than 2³¹ bytes with
-- their sizes.
pub recibir-serializar :
    (code : ℕ) (ds : List (List ℕ)) (resto : List ℕ)
    → code < 4294967296
    → tamano_campos ds < int_negativo
    → recibir_paquete (serializar_paquete (empaquetar code ds) ++ resto)
      ≡ recibido (int_bytes code ∷ ds) resto
unfolding recibir_paquete
recibir-serializar code ds resto c l =
    rw (serializar-empaquetar code ds, int_bytes_lem (tamano_campos ds) (omega arith))
      (con_buffer-campos (int_bytes code) ds resto l)
