-- ===== src/Prelude/Errors.antt =====
-- Python's exceptions as values: a call returns, or raises with a class and a constant message.
use Prim.Native.String.{String}
use mathlib.Core.Path.{◌≡◌, refl}
use mathlib.Core.Bool.{Bool, true, false}
use mathlib.Core.Logic.{◌↔◌}
use mathlib.Core.List.{List, [], ◌∷◌}
use ramulator.Prelude.Predicates.{All}

pub data Error : Type 0 where
  value_error : String → Error
  type_error key_error index_error overflow_error attribute_error : Error

pub data Result {ℓ} (A : Type ℓ) : Type ℓ where
  err : Error → Result A
  ok : A → Result A

-- A check that returns nothing.
abbrev pub Checked : Type 0
Checked = Result (Unit {0})

infixl 5 ◌>>=◌ ◌>>◌
abbrev pub ◌>>=◌ {ℓ κ} :
    {Value : Type ℓ} {Next : Type κ} → Result Value → (Value → Result Next) → Result Next
err exception >>= rest = err exception
ok value >>= rest = rest value

-- A check, and what follows if it passes.
abbrev pub ◌>>◌ {ℓ} : {Next : Type ℓ} → Checked → Result Next → Result Next
err exception >> next = err exception
ok tt >> next = next

-- `if b: raise ValueError(message)`
abbrev pub raise_if : Bool → String → Checked
raise_if true e = err (value_error e)
raise_if false e = ok tt

pub ok_inj {ℓ} : {A : Type ℓ} {a b : A} → ok a ≡ ok b → a ≡ b
ok_inj e = cc

pub raise_if-eq-ok {ℓ} :
    {B : Type ℓ} (c : Bool) (e : String) (m : Result B) {b : B}
    → (raise_if c e >> m) ≡ ok b
    → (c ≡ false) × (m ≡ ok b)
raise_if-eq-ok true e m h = cc
raise_if-eq-ok false e m h = (refl, h)

-- The inversions of a call that returns: the rest is proved with the values as variables.
pub bind_elim {ℓ κ ι} :
    {A : Type ℓ} {B : Type κ} {C : Type ι} (m : Result A) (f : A → Result B) {b : B}
    → (m >>= f) ≡ ok b
    → ((a : A) → m ≡ ok a → f a ≡ ok b → C)
    → C
bind_elim (ok a) f h k = k a refl h
bind_elim (err e) f h k = absurd (cc)

pub raise_elim {ℓ ι} :
    {B : Type ℓ} {C : Type ι} (c : Bool) (e : String) (m : Result B) {b : B}
    → (raise_if c e >> m) ≡ ok b
    → (c ≡ false → m ≡ ok b → C)
    → C
raise_elim true e m h k = absurd (cc)
raise_elim false e m h k = k refl h

pub then_elim {ℓ ι} :
    {B : Type ℓ} {C : Type ι} (m : Checked) (k : Result B) {b : B}
    → (m >> k) ≡ ok b
    → (m ≡ ok tt → k ≡ ok b → C)
    → C
then_elim (ok tt) k h c = c refl h
then_elim (err e) k h c = absurd (cc)

pub raise_if-ok : (c : Bool) (e : String) → raise_if c e ≡ ok tt → c ≡ false
raise_if-ok true e h = cc
raise_if-ok false e h = refl

-- The checks in order: the first that fails raises.
abbrev pub all_checks : List Checked → Checked
all_checks [] = ok tt
all_checks (c ∷ cs) = c >> all_checks cs

-- A call whose value is not used.
abbrev pub discard {ℓ} : {A : Type ℓ} → Result A → Checked
discard (err e) = err e
discard (ok a) = ok tt

pub >>-ok_iff : (c d : Checked) → ((c >> d) ≡ ok tt) ↔ ((c ≡ ok tt) × (d ≡ ok tt))
>>-ok_iff (ok tt) d = (λ h. (refl, h), λ h. h.1)
>>-ok_iff (err e) d = (λ h. absurd (cc), λ h. absurd (cc h.0))

pub all_checks-ok_iff :
    (cs : List Checked) → (all_checks cs ≡ ok tt) ↔ All (λ (c : Checked). c ≡ ok tt) cs
all_checks-ok_iff [] = (λ _. tt, λ _. refl)
all_checks-ok_iff (c ∷ cs) = (
  λ h. let (a, b) = (>>-ok_iff c (all_checks cs)).0 h in (a, (all_checks-ok_iff cs).0 b),
  λ h. (>>-ok_iff c (all_checks cs)).1 (h.0, (all_checks-ok_iff cs).1 h.1),
)

pub raise_if-ok_iff : (c : Bool) (e : String) → (raise_if c e ≡ ok tt) ↔ (c ≡ false)
raise_if-ok_iff true e = (λ h. cc, λ h. cc)
raise_if-ok_iff false e = (λ h. refl, λ h. refl)

pub ↔_trans {ℓ κ ι} : {A : Type ℓ} {B : Type κ} {C : Type ι} → A ↔ B → B ↔ C → A ↔ C
↔_trans f g = (λ a. g.0 (f.0 a), λ c. f.1 (g.1 c))

-- What a call that raises raises.
abbrev pub Raises {ℓ} : {A : Type ℓ} → (Error → Type 0) → Result A → Type 0
Raises P (ok a) = Unit {0}
Raises P (err e) = P e

abbrev pub IsValueError : Error → Type 0
IsValueError (value_error m) = Unit {0}
IsValueError _ = ⊥

pub Raises->>= {ℓ κ} :
    {A : Type ℓ} {B : Type κ} (P : Error → Type 0) (m : Result A) (f : A → Result B)
    → Raises P m
    → ((a : A) → m ≡ ok a → Raises P (f a))
    → Raises P (m >>= f)
Raises->>= P (ok a) f h k = k a refl
Raises->>= P (err e) f h k = h

pub Raises->> {ℓ} :
    {B : Type ℓ} (P : Error → Type 0) (m : Checked) (k : Result B)
    → Raises P m
    → (m ≡ ok tt → Raises P k)
    → Raises P (m >> k)
Raises->> P (ok tt) k h c = c refl
Raises->> P (err e) k h c = h

pub Raises-all_checks :
    (P : Error → Type 0) (cs : List Checked) → All (Raises P) cs → Raises P (all_checks cs)
Raises-all_checks P [] h = tt
Raises-all_checks P (c ∷ cs) h = Raises->> P c (all_checks cs) h.0 (λ _. Raises-all_checks P cs h.1)

pub Raises-raise_if : (c : Bool) (e : String) → Raises IsValueError (raise_if c e)
Raises-raise_if true e = tt
Raises-raise_if false e = tt
