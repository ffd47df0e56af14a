-- ===== src/Server/Admission.antt =====
-- crates/zuicity-server/src/lib.rs, `PreAuthAdmission` and `PreAuthPermit`: how many connections may
-- wait for authentication, in all and from one address. The map is a function, and an address is
-- the key type `Ip` with its equality. A permit is its address: the shared state is the argument.
pub mod Limits
use zuicity.Prelude.{
  ℕ, zero, suc, ◌+◌, ◌-◌, ◌≡◌, Bool, true, false, ◌||◌, Option, none, some, ◌==◌, ltb, leb,
  if◌then◌else◌, Outcome, ok, err, panic,
}

abbrev pub max_pending_authentications : ℕ
max_pending_authentications = 128

abbrev pub max_pending_authentications_per_ip : ℕ
max_pending_authentications_per_ip = 64

-- `get(&ip).copied().unwrap_or(0)`
abbrev pub count_or_zero : Option ℕ → ℕ
count_or_zero none = 0
count_or_zero (some n) = n

-- The entry behind a drop: one less, and none at zero.
abbrev pub entry_after_drop : Option ℕ → Option ℕ
entry_after_drop none = none
entry_after_drop (some count) = if (count - 1) == 0 then none else some (count - 1)

module _ {Ip : Type 0} (ip_eq : (a b : Ip) → Dec (a ≡ b)) where
  -- `poisoned` is the mutex after a panic under its lock.
  pub record PreAuthAdmissionState : Type 0 where
    pub poisoned : Bool
    pub total : ℕ
    pub per_ip : Ip → Option ℕ

  abbrev pub new : PreAuthAdmissionState
  new = record { poisoned = false; total = 0; per_ip = λ _. none }

  abbrev pub has_global_capacity : PreAuthAdmissionState → Bool
  has_global_capacity s = if s.poisoned then false else ltb s.total max_pending_authentications

  -- The map with another entry at one key; `none` removes it.
  unfoldable pub with_entry : (Ip → Option ℕ) → Ip → Option ℕ → Ip → Option ℕ
  with_entry m ip v i = elim (ip_eq ip i) [ yes _ ↦ v | no _ ↦ m i ]

  -- The permit is `ip` itself; a refusal leaves the state as it was.
  unfoldable pub try_admit : PreAuthAdmissionState → Ip → Option PreAuthAdmissionState
  try_admit s ip =
      let count = count_or_zero (s.per_ip ip) in
      if s.poisoned
      then none
      else if leb max_pending_authentications s.total
          || leb max_pending_authentications_per_ip count
      then none
      else some
          (record s { total = s.total + 1; per_ip = with_entry s.per_ip ip (some (count + 1)) })

  -- `PreAuthPermit::drop`
  unfoldable pub drop_permit : PreAuthAdmissionState → Ip → PreAuthAdmissionState
  drop_permit s ip = if s.poisoned then s else record s {
    total = s.total - 1;
    per_ip = with_entry s.per_ip ip (entry_after_drop (s.per_ip ip));
  }
