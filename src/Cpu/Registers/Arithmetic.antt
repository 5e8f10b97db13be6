-- ===== src/Cpu/Registers/Arithmetic.antt =====
-- SET is read back and touches no other register; SUB undoes SUM.
use Prim.Native.String.{String}
use text.Mathlib.Text.{◌==◌ as str_eq}
use tp_2026_1c_malloc_and_cr.Base.{
  ℕ, ◌+◌, ◌-◌, ◌%◌, ◌≡◌, ◌≢◌, ◌<◌, refl, ap, ◌∙◌, Bool, true, false, ◌||◌, Option, none, some,
  if◌then◌else◌, u8_mod, u32_mod, add32, sub32, arith,
}
use tp_2026_1c_malloc_and_cr.Memory.Types.{Registros}
use tp_2026_1c_malloc_and_cr.Cpu.Registers.{
  Registro, r_ax, r_bx, r_cx, r_dx, r_eax, r_ebx, r_ecx, r_edx, r_si, r_di, r_pc, es_registro_8bits,
  obtener_registro, leer, escribir, leer_valor_registro, ejecutar_set, ejecutar_sum, ejecutar_sub,
}

abbrev pub es_8 : Registro → Bool
es_8 r_ax = true
es_8 r_bx = true
es_8 r_cx = true
es_8 r_dx = true
es_8 r = false

-- The tests of the wide registers, and of the narrow ones before them.
anchos :
    (a b c d e f h : Bool) (r : Registro)
    → (if a
        then some r_eax
        else (if b
            then some r_ebx
            else (if c
                then some r_ecx
                else (if d
                    then some r_edx
                    else (if e
                        then some r_si
                        else (if f then some r_di else (if h then some r_pc else none)))))))
      ≡ some r
    → false ≡ es_8 r
anchos true b c d e f h r q = let este : r_eax ≡ r = cc in ap es_8 este
anchos false true c d e f h r q = let este : r_ebx ≡ r = cc in ap es_8 este
anchos false false true d e f h r q = let este : r_ecx ≡ r = cc in ap es_8 este
anchos false false false true e f h r q = let este : r_edx ≡ r = cc in ap es_8 este
anchos false false false false true f h r q = let este : r_si ≡ r = cc in ap es_8 este
anchos false false false false false true h r q = let este : r_di ≡ r = cc in ap es_8 este
anchos false false false false false false true r q = let este : r_pc ≡ r = cc in ap es_8 este
anchos false false false false false false false r q = absurd (cc)

angostos :
    (a b c d : Bool) (resto : Option Registro) (r : Registro)
    → (resto ≡ some r → false ≡ es_8 r)
    → (if a
        then some r_ax
        else (if b then some r_bx else (if c then some r_cx else (if d then some r_dx else resto))))
      ≡ some r
    → (a || (b || (c || d))) ≡ es_8 r
angostos true b c d resto r h q = let este : r_ax ≡ r = cc in ap es_8 este
angostos false true c d resto r h q = let este : r_bx ≡ r = cc in ap es_8 este
angostos false false true d resto r h q = let este : r_cx ≡ r = cc in ap es_8 este
angostos false false false true resto r h q = let este : r_dx ≡ r = cc in ap es_8 este
angostos false false false false resto r h q = h q

-- The width of a register is that of its name.
es_registro_8bits-obtener :
    (n : String) (r : Registro) → obtener_registro n ≡ some r → es_registro_8bits n ≡ es_8 r
unfolding obtener_registro es_registro_8bits
es_registro_8bits-obtener n r =
    angostos (str_eq n "AX") (str_eq n "BX") (str_eq n "CX") (str_eq n "DX") _ r (
      anchos (str_eq n "EAX") (str_eq n "EBX") (str_eq n "ECX") (str_eq n "EDX") (str_eq n "SI")
        (str_eq n "DI") (str_eq n "PC") r)

leer-escribir : (r : Registro) (v : ℕ) (g : Registros) → leer r (escribir r v g) ≡ v
leer-escribir r v g = elim r as (λ q. leer q (escribir q v g) ≡ v) [
  | r_ax ↦ refl
  | r_bx ↦ refl
  | r_cx ↦ refl
  | r_dx ↦ refl
  | r_eax ↦ refl
  | r_ebx ↦ refl
  | r_ecx ↦ refl
  | r_edx ↦ refl
  | r_si ↦ refl
  | r_di ↦ refl
  | r_pc ↦ refl
]

escribir-leer : (r : Registro) (g : Registros) → escribir r (leer r g) g ≡ g
escribir-leer r g = elim r as (λ q. escribir q (leer q g) g ≡ g) [
  | r_ax ↦ refl
  | r_bx ↦ refl
  | r_cx ↦ refl
  | r_dx ↦ refl
  | r_eax ↦ refl
  | r_ebx ↦ refl
  | r_ecx ↦ refl
  | r_edx ↦ refl
  | r_si ↦ refl
  | r_di ↦ refl
  | r_pc ↦ refl
]

escribir-escribir :
    (r : Registro) (v w : ℕ) (g : Registros) → escribir r v (escribir r w g) ≡ escribir r v g
escribir-escribir r v w g = elim r as (λ q. escribir q v (escribir q w g) ≡ escribir q v g) [
  | r_ax ↦ refl
  | r_bx ↦ refl
  | r_cx ↦ refl
  | r_dx ↦ refl
  | r_eax ↦ refl
  | r_ebx ↦ refl
  | r_ecx ↦ refl
  | r_edx ↦ refl
  | r_si ↦ refl
  | r_di ↦ refl
  | r_pc ↦ refl
]

leer-escribir_ne :
    (r q : Registro) (v : ℕ) (g : Registros) → r ≢ q → leer q (escribir r v g) ≡ leer q g
leer-escribir_ne r_ax q v g n = ground arith
leer-escribir_ne r_bx q v g n = ground arith
leer-escribir_ne r_cx q v g n = ground arith
leer-escribir_ne r_dx q v g n = ground arith
leer-escribir_ne r_eax q v g n = ground arith
leer-escribir_ne r_ebx q v g n = ground arith
leer-escribir_ne r_ecx q v g n = ground arith
leer-escribir_ne r_edx q v g n = ground arith
leer-escribir_ne r_si q v g n = ground arith
leer-escribir_ne r_di q v g n = ground arith
leer-escribir_ne r_pc q v g n = ground arith

-- The number of values of a register.
abbrev pub ancho : Registro → ℕ
ancho r = if es_8 r then u8_mod else u32_mod

leer_valor-eq :
    (n : String) (r : Registro) (g : Registros)
    → obtener_registro n ≡ some r
    → leer_valor_registro n g ≡ leer r g
unfolding leer_valor_registro
leer_valor-eq n r g e = rw (e, leer_valor_registro)

set-eq :
    (n : String) (r : Registro) (valor : ℕ) (g : Registros)
    → obtener_registro n ≡ some r
    → ejecutar_set n valor g ≡ escribir r (if es_8 r then valor % u8_mod else valor) g
unfolding ejecutar_set
set-eq n r valor g e = rw (e, ejecutar_set, es_registro_8bits-obtener n r e)

abbrev sumado : Registro → ℕ → ℕ → ℕ
sumado r x y = if es_8 r then (x + y % u8_mod) % u8_mod else add32 x y

abbrev restado : Registro → ℕ → ℕ → ℕ
restado r x y = if es_8 r then (x + u8_mod - y % u8_mod) % u8_mod else sub32 x y

sum-eq :
    (destino origen : String) (r q : Registro) (g : Registros)
    → obtener_registro destino ≡ some r
    → obtener_registro origen ≡ some q
    → ejecutar_sum destino origen g ≡ escribir r (sumado r (leer r g) (leer q g)) g
unfolding ejecutar_sum
sum-eq destino origen r q g e f =
    rw (e, ejecutar_sum, es_registro_8bits-obtener destino r e, leer_valor-eq origen q g f)

sub-eq :
    (destino origen : String) (r q : Registro) (g : Registros)
    → obtener_registro destino ≡ some r
    → obtener_registro origen ≡ some q
    → ejecutar_sub destino origen g ≡ escribir r (restado r (leer r g) (leer q g)) g
unfolding ejecutar_sub
sub-eq destino origen r q g e f =
    rw (e, ejecutar_sub, es_registro_8bits-obtener destino r e, leer_valor-eq origen q g f)

-- A value that SET stores in a register is read back, cut to the register's width, and every other
-- register keeps its value.
pub ejecutar_set-leer :
    (n otro : String) (r q : Registro) (valor : ℕ) (g : Registros)
    → obtener_registro n ≡ some r
    → obtener_registro otro ≡ some q
    → r ≢ q
    → valor < u32_mod
    → (leer_valor_registro n (ejecutar_set n valor g) ≡ valor % ancho r)
      × (leer_valor_registro otro (ejecutar_set n valor g) ≡ leer_valor_registro otro g)
ejecutar_set-leer n otro r q valor g e f d l =
    let v : ℕ = if es_8 r then valor % u8_mod else valor in
    let corta : v ≡ valor % ancho r = ground arith in
    rw
      (
        set-eq n r valor g e,
        leer_valor-eq n r (escribir r v g) e,
        leer_valor-eq otro q (escribir r v g) f,
        leer_valor-eq otro q g f,
      )
      (leer-escribir r v g ∙ corta, leer-escribir_ne r q v g d)

-- SUB with the same operands undoes SUM, where the operands are two registers and the first holds a
-- value of its width.
pub ejecutar_sub-sum :
    (destino origen : String) (r q : Registro) (g : Registros)
    → obtener_registro destino ≡ some r
    → obtener_registro origen ≡ some q
    → r ≢ q
    → leer r g < ancho r
    → leer q g < u32_mod
    → ejecutar_sub destino origen (ejecutar_sum destino origen g) ≡ g
ejecutar_sub-sum destino origen r q g e f d l m =
    let x = leer r g in
    let y = leer q g in
    let suma = sumado r x y in
    let vuelve : restado r suma y ≡ x = ground arith in
    sub-eq destino origen r q (ejecutar_sum destino origen g) e f
    ∙ rw
        (
          sum-eq destino origen r q g e f,
          leer-escribir r suma g,
          leer-escribir_ne r q suma g d,
          escribir-escribir r (restado r suma y) suma g,
          vuelve,
        )
        (escribir-leer r g)
