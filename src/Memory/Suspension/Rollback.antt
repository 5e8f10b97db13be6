-- ===== src/Memory/Suspension/Rollback.antt =====
-- The roll back of a return from Swap for which there is no room.
use tp_2026_1c_malloc_and_cr.Base.{
  ℕ, ◌≡◌, refl, true, false, Option, none, some, List, [], ◌∷◌, pos, ℤ,
}
use tp_2026_1c_malloc_and_cr.Memory.Types.{Proceso}
use tp_2026_1c_malloc_and_cr.Memory.Holes.{agregar_hueco_libre}
use tp_2026_1c_malloc_and_cr.Memory.State.{Km}
use tp_2026_1c_malloc_and_cr.Memory.Processes.{buscar_proceso}
use tp_2026_1c_malloc_and_cr.Memory.Suspension.{
  Sistema, Reserva, reservar, devolver_reservas, con_mutex, confirmar, desuspender_proceso_memoria,
}

-- How the roll back ends: it gives nothing back and answers 0, or it waits for ever.
abbrev pub vuelta_atras : List Reserva → Sistema → Option (ℤ × Sistema)
vuelta_atras [] st = some (pos 0, record st { km = con_mutex false st.km })
vuelta_atras (r ∷ rs) st = none

confirmar-vuelta_atras :
    (pid : ℕ) (rs : List Reserva) (st : Sistema) → confirmar pid false rs st ≡ vuelta_atras rs st
unfolding confirmar devolver_reservas agregar_hueco_libre
confirmar-vuelta_atras pid [] st = refl
confirmar-vuelta_atras pid (r ∷ rs) st = refl

-- Where a segment of a suspended process does not fit, the return from Swap answers 0 if none before
-- it was given a hole; if one was, the thread waits for `mutex_huecos`, which it holds, and the call
-- does not return.
pub desuspender_proceso_memoria-vuelta_atras :
    (pid : ℕ) (p : Proceso) (rs : List Reserva) (st : Sistema) (km' : Km)
    → buscar_proceso pid st.km.procesos ≡ some p
    → p.suspendido ≡ true
    → reservar 0 p.tabla_segmentos [] st.km ≡ (false, rs, km')
    → desuspender_proceso_memoria pid st ≡ vuelta_atras rs (record st { km = km' })
unfolding desuspender_proceso_memoria
desuspender_proceso_memoria-vuelta_atras pid p rs st km' found suspendido falta =
    rw (found, desuspender_proceso_memoria, suspendido, falta)
      (confirmar-vuelta_atras pid rs (record st { km = km' }))
