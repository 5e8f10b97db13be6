-- ===== src/Stick/Tests.antt =====
-- A stick of 8 bytes.
use tp_2026_1c_malloc_and_cr.Base.{ℕ, ◌≡◌, false, ◌&&◌, some, [], ◌∷◌, leb, ltb, arith}
use tp_2026_1c_malloc_and_cr.Stick.{Stick, procesar_lectura, procesar_escritura}
use tp_2026_1c_malloc_and_cr.Stick.Access.{procesar_lectura-escritura}

abbrev ms_de_8 : Stick
ms_de_8 = record { tamano = 8; memoria = λ i. 0 }

procesar_lectura-escritura_example :
    (ms' : Stick) × (procesar_escritura 3 (7 ∷ 9 ∷ []) ms_de_8 ≡ some ms')
    × (procesar_lectura 3 2 ms' ≡ some (7 ∷ 9 ∷ []))
    × ((i : ℕ) → (leb 3 i && ltb i 5) ≡ false → ms'.memoria i ≡ 0)
procesar_lectura-escritura_example =
    procesar_lectura-escritura 3 (7 ∷ 9 ∷ []) ms_de_8 (omega arith) (omega arith)
