-- ===== src/Transport/Tuic/Reassembly/Slots.antt =====
-- The slots of a reassembly buffer: how many are filled, and what filling one changes.
use zuicity.Prelude.{
  ℕ, zero, suc, ◌≤◌, ◌<◌, ◌≡◌, ◌≢◌, refl, ap, List, [], ◌∷◌, ◌++◌, Option, none, some, arith,
  length, get_elem?, set, replicate, ok,
}
use zuicity.Prelude.Bytes.{Bytes, concat}
use zuicity.Transport.Tuic.Reassembly.{concat_chunks}

abbrev pub Slots : Type 0
Slots = List (Option Bytes)

abbrev pub count_some : Slots → ℕ
count_some [] = 0
count_some (none ∷ slots) = count_some slots
count_some (some _ ∷ slots) = suc (count_some slots)

pub count_some-le : (slots : Slots) → count_some slots ≤ length slots
count_some-le [] = omega arith
count_some-le (none ∷ slots) = omega (arith, count_some-le slots)
count_some-le (some _ ∷ slots) = omega (arith, count_some-le slots)

pub count_some-replicate : (n : ℕ) → count_some (replicate n none) ≡ 0
count_some-replicate zero = refl
count_some-replicate (suc n) = count_some-replicate n

pub length-replicate : (n : ℕ) (o : Option Bytes) → length (replicate n o) ≡ n
length-replicate zero o = refl
length-replicate (suc n) o = ap suc (length-replicate n o)

pub length-set : (slots : Slots) (i : ℕ) (o : Option Bytes) → length (set slots i o) ≡ length slots
length-set [] i o = refl
length-set (x ∷ slots) zero o = refl
length-set (x ∷ slots) (suc i) o = ap suc (length-set slots i o)

pub get_elem?-of_lt :
    (slots : Slots) (i : ℕ) → i < length slots → (o : Option Bytes) × (get_elem? slots i ≡ some o)
get_elem?-of_lt [] i h = absurd (omega arith)
get_elem?-of_lt (x ∷ slots) zero h = (x, refl)
get_elem?-of_lt (x ∷ slots) (suc i) h = get_elem?-of_lt slots i (omega arith)

-- An empty slot that is filled counts for one more.
pub count_some-set :
    (slots : Slots) (i : ℕ) (chunk : Bytes)
    → get_elem? slots i ≡ some none
    → count_some (set slots i (some chunk)) ≡ suc (count_some slots)
count_some-set [] i chunk h = absurd (cc)
count_some-set (none ∷ slots) zero chunk h = refl
count_some-set (some _ ∷ slots) zero chunk h = absurd (cc)
count_some-set (none ∷ slots) (suc i) chunk h = count_some-set slots i chunk h
count_some-set (some _ ∷ slots) (suc i) chunk h = ap suc (count_some-set slots i chunk h)

pub get_elem?-set_ne :
    (slots : Slots) (i j : ℕ) (o : Option Bytes)
    → i ≢ j
    → get_elem? (set slots i o) j ≡ get_elem? slots j
get_elem?-set_ne [] i j o h = refl
get_elem?-set_ne (x ∷ slots) zero zero o h = absurd (h refl)
get_elem?-set_ne (x ∷ slots) zero (suc j) o h = refl
get_elem?-set_ne (x ∷ slots) (suc i) zero o h = refl
get_elem?-set_ne (x ∷ slots) (suc i) (suc j) o h = get_elem?-set_ne slots i j o (λ e. h (ap suc e))

pub get_elem?-set_self :
    (slots : Slots) (i : ℕ) (o : Option Bytes)
    → i < length slots
    → get_elem? (set slots i o) i ≡ some o
get_elem?-set_self [] i o h = absurd (omega arith)
get_elem?-set_self (x ∷ slots) zero o h = refl
get_elem?-set_self (x ∷ slots) (suc i) o h = get_elem?-set_self slots i o (omega arith)

-- Full slots are put together, with no chunk missing.
pub concat_chunks-full :
    (slots : Slots)
    → count_some slots ≡ length slots
    → (payload : Bytes) × (concat_chunks slots ≡ ok payload)
unfolding concat_chunks
concat_chunks-full [] h = ([], refl)
concat_chunks-full (none ∷ slots) h = absurd (omega (arith, count_some-le slots))
concat_chunks-full (some chunk ∷ slots) h =
    let (payload, e) = concat_chunks-full slots (omega arith) in (chunk ++ payload, rw e)

-- Every slot is empty, or holds the chunk of the packet that belongs there.
abbrev pub Agrees : List Bytes → Slots → Type 0
Agrees [] [] = Unit
Agrees (c ∷ chunks) (none ∷ slots) = Agrees chunks slots
Agrees (c ∷ chunks) (some d ∷ slots) = (d ≡ c) × Agrees chunks slots
Agrees [] (o ∷ slots) = ⊥
Agrees (c ∷ chunks) [] = ⊥

pub concat_chunks-Agrees :
    (chunks : List Bytes) (slots : Slots)
    → Agrees chunks slots
    → count_some slots ≡ length slots
    → concat_chunks slots ≡ ok (concat chunks)
unfolding concat_chunks
concat_chunks-Agrees [] [] a h = refl
concat_chunks-Agrees (c ∷ chunks) (some d ∷ slots) a h =
    rw (concat_chunks-Agrees chunks slots a.1 (omega arith), a.0)
concat_chunks-Agrees (c ∷ chunks) (none ∷ slots) a h = absurd (omega (arith, count_some-le slots))
concat_chunks-Agrees [] (o ∷ slots) a h = elim a [ ]
concat_chunks-Agrees (c ∷ chunks) [] a h = elim a [ ]

pub Agrees-replicate : (chunks : List Bytes) → Agrees chunks (replicate (length chunks) none)
Agrees-replicate [] = tt
Agrees-replicate (c ∷ chunks) = Agrees-replicate chunks

pub length-Agrees :
    (chunks : List Bytes) (slots : Slots) → Agrees chunks slots → length slots ≡ length chunks
length-Agrees [] [] a = refl
length-Agrees (c ∷ chunks) (none ∷ slots) a = ap suc (length-Agrees chunks slots a)
length-Agrees (c ∷ chunks) (some d ∷ slots) a = ap suc (length-Agrees chunks slots a.1)
length-Agrees [] (o ∷ slots) a = elim a [ ]
length-Agrees (c ∷ chunks) [] a = elim a [ ]

pub Agrees-set :
    (chunks : List Bytes) (slots : Slots) (i : ℕ) (chunk : Bytes)
    → Agrees chunks slots
    → get_elem? chunks i ≡ some chunk
    → Agrees chunks (set slots i (some chunk))
Agrees-set [] [] i chunk a h = tt
Agrees-set (c ∷ chunks) (none ∷ slots) zero chunk a h = (ground arith, a)
Agrees-set (c ∷ chunks) (some d ∷ slots) zero chunk a h = (ground arith, a.1)
Agrees-set (c ∷ chunks) (none ∷ slots) (suc i) chunk a h = Agrees-set chunks slots i chunk a h
Agrees-set (c ∷ chunks) (some d ∷ slots) (suc i) chunk a h =
    (a.0, Agrees-set chunks slots i chunk a.1 h)
Agrees-set [] (o ∷ slots) i chunk a h = elim a [ ]
Agrees-set (c ∷ chunks) [] i chunk a h = elim a [ ]
