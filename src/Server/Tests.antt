-- ===== src/Server/Tests.antt =====
-- The admission with two addresses.
use zuicity.Prelude.{
  ◌<◌, ◌≡◌, ◌≢◌, ◌↔◌, refl, [], ◌∷◌, Bool, true, false, Option, none, some, arith, length,
}
use zuicity.Server.Admission.{
  max_pending_authentications, max_pending_authentications_per_ip, PreAuthAdmissionState, new,
  try_admit, drop_permit, with_entry,
}
use zuicity.Server.Admission.Limits.{permits_of, Counts, Reachable, Reachable-Counts, try_admit_iff}
use zuicity.Server.Admission.Limits.Step.{admitted, dropped}
use zuicity.Server.Admission.Limits.Reachable.{start, next}

bool_eq : (a b : Bool) → Dec (a ≡ b)
bool_eq true true = yes refl
bool_eq false false = yes refl
bool_eq true false = no (λ e. ground (arith, e))
bool_eq false true = no (λ e. ground (arith, e))

abbrev State : Type 0
State = PreAuthAdmissionState bool_eq

abbrev or_new : Option State → State
or_new none = new bool_eq
or_new (some s) = s

-- One connection of each address, and then the first one is done.
abbrev first : State
first = or_new (try_admit bool_eq (new bool_eq) true)

abbrev both : State
both = or_new (try_admit bool_eq first false)

abbrev later : State
later = drop_permit bool_eq both true

later-Reachable : Reachable bool_eq later (false ∷ [])
unfolding try_admit with_entry bool_eq
later-Reachable =
    next both later (false ∷ true ∷ []) (false ∷ [])
      (next first both (true ∷ []) (false ∷ true ∷ [])
        (next (new bool_eq) first [] (true ∷ []) start (admitted (new bool_eq) first [] true refl))
        (admitted first both (true ∷ []) false refl))
      (dropped both (false ∷ []) [] true)

Reachable-Counts_example : Counts bool_eq later (false ∷ [])
Reachable-Counts_example = Reachable-Counts bool_eq later (false ∷ []) later-Reachable

try_admit_iff_example : (try_admit bool_eq later true ≢ none) ↔ (
    (length (false ∷ []) < max_pending_authentications)
    × (permits_of bool_eq true (false ∷ []) < max_pending_authentications_per_ip))
try_admit_iff_example = try_admit_iff bool_eq later (false ∷ []) true later-Reachable
