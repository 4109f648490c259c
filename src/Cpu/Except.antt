-- ===== src/Cpu/Except.antt =====
-- Exceptions as they are raised and buffered, cpu.h, cpu.cc, excnames.h and accesstypes.h. The mode of
-- an access is `none` for ANY.
use cube_sim.Common.{
  Bool, List, Option, [], false, if◌then◌else◌, ltb, none, refl, some, true, ℕ, ◌&&◌, ◌++◌, ◌==◌,
  ◌∷◌, ◌≡◌,
}
use cube_sim.Memory.Mapper.{AccessMode, dataload, datastore, instfetch, same_mode}

-- The codes of excnames.h that the processor raises.
abbrev pub exc_int : ℕ
exc_int = 0

abbrev pub exc_mod : ℕ
exc_mod = 1

abbrev pub exc_tlbl : ℕ
exc_tlbl = 2

abbrev pub exc_tlbs : ℕ
exc_tlbs = 3

abbrev pub exc_adel : ℕ
exc_adel = 4

abbrev pub exc_ades : ℕ
exc_ades = 5

abbrev pub exc_ibe : ℕ
exc_ibe = 6

abbrev pub exc_dbe : ℕ
exc_dbe = 7

abbrev pub exc_sys : ℕ
exc_sys = 8

abbrev pub exc_bp : ℕ
exc_bp = 9

abbrev pub exc_ri : ℕ
exc_ri = 10

abbrev pub exc_cpu : ℕ
exc_cpu = 11

abbrev pub exc_ov : ℕ
exc_ov = 12

abbrev pub exc_tr : ℕ
exc_tr = 13

pub record ExcInfo : Type 0 where
  pub exc_code : ℕ
  pub mode : Option AccessMode
  pub coprocno : ℕ

-- One row of the table of `exception_priority`.
pub record ExcPriority : Type 0 where
  pub priority : ℕ
  pub exc_code : ℕ
  pub mode : Option AccessMode

abbrev row : ℕ → ℕ → Option AccessMode → ExcPriority
row p e m = record { priority = p; exc_code = e; mode = m }

unfoldable pub prio_table : List ExcPriority
prio_table =
    row 1 exc_adel (some instfetch)
    ∷ row 2 exc_tlbl (some instfetch)
    ∷ row 2 exc_tlbs (some instfetch)
    ∷ row 3 exc_ibe none
    ∷ row 4 exc_ov none
    ∷ row 4 exc_tr none
    ∷ row 4 exc_sys none
    ∷ row 4 exc_bp none
    ∷ row 4 exc_ri none
    ∷ row 4 exc_cpu none
    ∷ row 5 exc_adel (some dataload)
    ∷ row 5 exc_ades none
    ∷ row 6 exc_tlbl (some dataload)
    ∷ row 6 exc_tlbs (some dataload)
    ∷ row 6 exc_tlbl (some datastore)
    ∷ row 6 exc_tlbs (some datastore)
    ∷ row 7 exc_mod none
    ∷ row 8 exc_dbe none
    ∷ row 9 exc_int none
    ∷ []

-- `mode == p->mode || p->mode == ANY`
unfoldable pub mode_fits : Option AccessMode → Option AccessMode → Bool
unfolding same_mode
mode_fits m none = true
mode_fits none (some q) = false
mode_fits (some m) (some q) = same_mode m q

unfoldable pub find_priority : ℕ → Option AccessMode → List ExcPriority → ℕ
unfolding mode_fits
find_priority e m [] = 0
find_priority e m (p ∷ ps) =
    if e == p.exc_code && mode_fits m p.mode then p.priority else find_priority e m ps

unfoldable pub exception_priority : ExcInfo → ℕ
unfolding find_priority prio_table
exception_priority x = find_priority x.exc_code x.mode prio_table

-- The loop of `exc_handle` over the buffer. `max_prio` is -1 from the start and never written, so the
-- test `prio > max_prio` is made against it each time.
unfoldable pub beats : ℕ → Option ℕ → Bool
beats prio none = true
beats prio (some m) = ltb m prio

unfoldable pub choose : Option ℕ → ExcInfo → List ExcInfo → ExcInfo
unfolding beats
choose max_prio chosen [] = chosen
choose max_prio chosen (x ∷ xs) =
    choose max_prio (if beats (exception_priority x) max_prio then x else chosen) xs

-- Of the exceptions that are buffered for one instruction the last is handled, whatever their
-- priorities are.
pub choose_last : (d x : ExcInfo) (xs : List ExcInfo) → choose none d (xs ++ x ∷ []) ≡ x
unfolding choose beats
choose_last d x [] = refl
choose_last d x (y ∷ ys) = choose_last y x ys
