-- ===== src/Server/Admission/Limits.antt =====
-- What the admission counts: the permits that are held, in all and by address.
use zuicity.Prelude.{
  ℕ, zero, suc, ◌+◌, ◌-◌, ◌≤◌, ◌<◌, ◌≡◌, ◌≢◌, refl, sym, ap, ◌∙◌, subst, false, Option, none, some,
  if◌then◌else◌, List, [], ◌∷◌, ◌++◌, length, length-append, arith, ◌↔◌,
}
use zuicity.Server.Admission.{
  max_pending_authentications, max_pending_authentications_per_ip, PreAuthAdmissionState, new,
  count_or_zero, with_entry, try_admit, entry_after_drop, drop_permit,
}

-- The entry of a count.
abbrev pub entry_of : ℕ → Option ℕ
entry_of zero = none
entry_of (suc n) = some (suc n)

abbrev pub one : {P : Type 0} → Dec P → ℕ
one (yes _) = 1
one (no _) = 0

count-entry_of : (n : ℕ) → count_or_zero (entry_of n) ≡ n
count-entry_of zero = refl
count-entry_of (suc n) = refl

drop-entry_of : (n : ℕ) → entry_after_drop (entry_of (suc n)) ≡ entry_of n
drop-entry_of zero = refl
drop-entry_of (suc n) = ground arith

admitted_entry :
    {P : Type 0} (d : Dec P) (v old : Option ℕ) (n : ℕ)
    → (P → v ≡ old)
    → old ≡ entry_of n
    → ◌≡◌ {A = Option ℕ}
        (elim d [ yes _ ↦ some (count_or_zero v + 1) | no _ ↦ old ])
        (entry_of (one d + n))
admitted_entry (yes p) v old n f e =
    let m : count_or_zero v + 1 ≡ suc n =
      omega (arith, ap count_or_zero (f p ∙ e) ∙ count-entry_of n) in
    ap some m ∙ ap entry_of (let k : suc n ≡ 1 + n = omega arith in k)
admitted_entry (no _) v old n f e = e ∙ ap entry_of (let m : n ≡ 0 + n = omega arith in m)

dropped_entry :
    {P : Type 0} (d : Dec P) (v old : Option ℕ) (n : ℕ)
    → (P → v ≡ old)
    → old ≡ entry_of (one d + n)
    → ◌≡◌ {A = Option ℕ} (elim d [ yes _ ↦ entry_after_drop v | no _ ↦ old ]) (entry_of n)
dropped_entry (yes p) v old n f e =
    ap entry_after_drop (f p ∙ e ∙ ap entry_of (let k : 1 + n ≡ suc n = omega arith in k))
    ∙ drop-entry_of n
dropped_entry (no _) v old n f e = e ∙ ap entry_of (let m : 0 + n ≡ n = omega arith in m)

within_limit :
    {P : Type 0} (d : Dec P) (n m : ℕ)
    → (P → n ≡ m)
    → m < max_pending_authentications_per_ip
    → n ≤ max_pending_authentications_per_ip
    → one d + n ≤ max_pending_authentications_per_ip
within_limit (yes p) n m f l h = let e = f p in omega arith
within_limit (no _) n m f l h = omega arith

module _ {Ip : Type 0} (ip_eq : (a b : Ip) → Dec (a ≡ b)) where
  -- How many of the permits are of one address.
  abbrev pub permits_of : Ip → List Ip → ℕ
  permits_of i [] = 0
  permits_of i (ip ∷ live) = one (ip_eq ip i) + permits_of i live

  -- The state counts the live permits, and they respect both limits.
  pub record Counts (s : PreAuthAdmissionState ip_eq) (live : List Ip) : Type 0 where
    pub alive : s.poisoned ≡ false
    pub total_live : s.total ≡ length live
    pub per_ip_live : (i : Ip) → s.per_ip i ≡ entry_of (permits_of i live)
    pub within : length live ≤ max_pending_authentications
    pub within_ip : (i : Ip) → permits_of i live ≤ max_pending_authentications_per_ip

  -- What happens to the admission: a permit is given, or one of those held is dropped.
  pub data Step
      : PreAuthAdmissionState ip_eq → List Ip → PreAuthAdmissionState ip_eq → List Ip → Type 0 where
    admitted :
        (s s' : PreAuthAdmissionState ip_eq) (live : List Ip) (ip : Ip)
        → try_admit ip_eq s ip ≡ some s'
        → Step s live s' (ip ∷ live)
    refused :
        (s : PreAuthAdmissionState ip_eq) (live : List Ip) (ip : Ip)
        → try_admit ip_eq s ip ≡ none
        → Step s live s live
    dropped :
        (s : PreAuthAdmissionState ip_eq) (before after : List Ip) (ip : Ip)
        → Step s (before ++ ip ∷ after) (drop_permit ip_eq s ip) (before ++ after)

  -- The states that the admission reaches, with the permits held there.
  pub data Reachable : PreAuthAdmissionState ip_eq → List Ip → Type 0 where
    start : Reachable (new ip_eq) []
    next :
        (s s' : PreAuthAdmissionState ip_eq) (live live' : List Ip)
        → Reachable s live
        → Step s live s' live'
        → Reachable s' live'

  new-Counts : Counts (new ip_eq) []
  new-Counts = record {
    alive = refl;
    total_live = refl;
    per_ip_live = λ i. refl;
    within = omega arith;
    within_ip = λ i. omega arith;
  }

  permits_of-insert :
      (i ip : Ip) (before after : List Ip)
      → permits_of i (before ++ ip ∷ after) ≡ one (ip_eq ip i) + permits_of i (before ++ after)
  permits_of-insert i ip [] after = refl
  permits_of-insert i ip (j ∷ before) after = omega (arith, permits_of-insert i ip before after)

  abbrev after_admit : PreAuthAdmissionState ip_eq → Ip → PreAuthAdmissionState ip_eq
  after_admit s ip = record s {
    total = s.total + 1;
    per_ip = with_entry ip_eq s.per_ip ip (some (count_or_zero (s.per_ip ip) + 1));
  }

  -- What an admission says.
  try_admit-some :
      (s s' : PreAuthAdmissionState ip_eq) (ip : Ip)
      → try_admit ip_eq s ip ≡ some s'
      → (s.total < max_pending_authentications)
        × (count_or_zero (s.per_ip ip) < max_pending_authentications_per_ip)
        × (s' ≡ after_admit s ip)
  unfolding try_admit
  try_admit-some s s' ip e = ground (arith, e)

  admitted-Counts :
      (s : PreAuthAdmissionState ip_eq) (live : List Ip) (ip : Ip)
      → Counts s live
      → s.total < max_pending_authentications
      → count_or_zero (s.per_ip ip) < max_pending_authentications_per_ip
      → Counts (after_admit s ip) (ip ∷ live)
  unfolding with_entry
  admitted-Counts s live ip c t p =
      let counted : count_or_zero (s.per_ip ip) ≡ permits_of ip live =
        ap count_or_zero (c.per_ip_live ip) ∙ count-entry_of (permits_of ip live) in
      record {
        alive = c.alive;
        total_live = omega (arith, c.total_live);
        per_ip_live = λ i.
            admitted_entry (ip_eq ip i) (s.per_ip ip) (s.per_ip i) (permits_of i live)
              (λ q. ap s.per_ip q) (c.per_ip_live i);
        within = omega (arith, c.total_live);
        within_ip = λ i.
            within_limit (ip_eq ip i) (permits_of i live) (permits_of ip live)
              (λ q. ap (λ j. permits_of j live) (sym q)) (omega arith) (c.within_ip i);
      }

  abbrev after_drop : PreAuthAdmissionState ip_eq → Ip → PreAuthAdmissionState ip_eq
  after_drop s ip = record s {
    total = s.total - 1;
    per_ip = with_entry ip_eq s.per_ip ip (entry_after_drop (s.per_ip ip));
  }

  drop_permit-alive :
      (s : PreAuthAdmissionState ip_eq) (ip : Ip)
      → s.poisoned ≡ false
      → drop_permit ip_eq s ip ≡ after_drop s ip
  unfolding drop_permit
  drop_permit-alive s ip e = ap (λ b. if b then s else after_drop s ip) e

  dropped-Counts :
      (s : PreAuthAdmissionState ip_eq) (before after : List Ip) (ip : Ip)
      → Counts s (before ++ ip ∷ after)
      → Counts (after_drop s ip) (before ++ after)
  unfolding with_entry
  dropped-Counts s before after ip c = record {
    alive = c.alive;
    total_live =
        omega (arith, c.total_live, length-append before after, length-append before (ip ∷ after));
    per_ip_live = λ i.
        dropped_entry (ip_eq ip i) (s.per_ip ip) (s.per_ip i) (permits_of i (before ++ after))
          (λ q. ap s.per_ip q)
          (c.per_ip_live i ∙ ap entry_of (permits_of-insert i ip before after));
    within = omega (arith, c.within, length-append before after, length-append before (ip ∷ after));
    within_ip = λ i. omega (arith, c.within_ip i, permits_of-insert i ip before after);
  }

  Step-Counts :
      (s s' : PreAuthAdmissionState ip_eq) (live live' : List Ip)
      → Step s live s' live'
      → Counts s live
      → Counts s' live'
  Step-Counts _ _ _ _ (admitted s s' live ip e) c =
      let (total, per, same) = try_admit-some s s' ip e in
      subst (λ t. Counts t (ip ∷ live)) (sym same) (admitted-Counts s live ip c total per)
  Step-Counts _ _ _ _ (refused s live ip e) c = c
  Step-Counts _ _ _ _ (dropped s before after ip) c =
      subst (λ t. Counts t (before ++ after)) (sym (drop_permit-alive s ip c.alive))
        (dropped-Counts s before after ip c)

  -- In every state that admissions, refusals and drops of held permits reach from the new one, the
  -- counters are exactly the permits held, in all and by address, with no entry for an address that
  -- holds none; and no more than 128 are held, nor more than 64 of one address.
  pub Reachable-Counts :
      (s : PreAuthAdmissionState ip_eq) (live : List Ip) → Reachable s live → Counts s live
  Reachable-Counts _ _ start = new-Counts
  Reachable-Counts _ _ (next t s before live r p) =
      Step-Counts t s before live p (Reachable-Counts t before r)

  -- In a reachable state a connection is admitted exactly where both limits leave room for it.
  pub try_admit_iff :
      (s : PreAuthAdmissionState ip_eq) (live : List Ip) (ip : Ip)
      → Reachable s live
      → (try_admit ip_eq s ip ≢ none) ↔ (
          (length live < max_pending_authentications)
          × (permits_of ip live < max_pending_authentications_per_ip))
  unfolding try_admit
  try_admit_iff s live ip r =
      let c = Reachable-Counts s live r in
      let counted : count_or_zero (s.per_ip ip) ≡ permits_of ip live =
        ap count_or_zero (c.per_ip_live ip) ∙ count-entry_of (permits_of ip live) in
      ground (arith, counted, c.alive, c.total_live)
