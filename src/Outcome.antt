-- ===== src/Outcome.antt =====
-- Python methods as state passing: a call returns a value and the new state, or raises and leaves
-- what it had already written. The exceptions are told apart by their classes.
use mathlib.Core.Option.{some-injective}
use diffusers_dynamic_offloa.Prelude.{
  ap, is_some, sym, subst, ◌≢◌, if◌then◌else◌, Option, none, some, Bool, true, false, ◌≡◌, refl,
  ◌⊎◌, inl, inr,
}

pub data Error : Type 0 where
  value_error type_error runtime_error key_error index_error os_error attribute_error
        assertion_error :
      Error
  -- No exception: a loop of the model was given too little fuel.
  out_of_fuel : Error

pub data Outcome (S A : Type 0) : Type 0 where
  done : A → S → Outcome S A
  raise : Error → S → Outcome S A

-- The state that a call leaves, whether it returns or raises.
abbrev pub left_by : {S A : Type 0} → Outcome S A → S
left_by (done a s) = s
left_by (raise e s) = s

abbrev pub Exec : Type 0 → Type 0 → Type 0
Exec S A = S → Outcome S A

abbrev pub continue : {S A B : Type 0} → Outcome S A → (A → Exec S B) → Outcome S B
continue (done a s) f = f a s
continue (raise e s) f = raise e s

infixl 5 ◌>>=◌ ◌>>◌
abbrev pub ◌>>=◌ : {S A B : Type 0} → Exec S A → (A → Exec S B) → Exec S B
◌>>=◌ m f s = continue (m s) f

abbrev pub ◌>>◌ : {S A B : Type 0} → Exec S A → Exec S B → Exec S B
m >> n = m >>= λ _. n

abbrev pub pure : {S A : Type 0} → A → Exec S A
pure a s = done a s

abbrev pub throw : {S A : Type 0} → Error → Exec S A
throw e s = raise e s

-- `if test: raise e`
abbrev pub raise_if : {S : Type 0} → Bool → Error → Exec S (Unit {0})
raise_if true e s = raise e s
raise_if false e s = done tt s

-- A lookup that must succeed, `d[k]`.
abbrev pub or_raise : {S A : Type 0} → Option A → Error → Exec S A
or_raise none e s = raise e s
or_raise (some a) e s = done a s

pub Outcome-cases :
    {S A : Type 0} (o : Outcome S A)
    → ((a : A) × (s : S) × (o ≡ done a s)) ⊎ ((e : Error) × (s : S) × (o ≡ raise e s))
Outcome-cases (done a s) = inl (a, s, refl)
Outcome-cases (raise e s) = inr (e, s, refl)

-- What a call leaves has a property if both its parts leave it so.
pub left_by-continue :
    {S A B : Type 0} (P : S → Type 0) (o : Outcome S A) (f : A → Exec S B)
    → P (left_by o)
    → ((a : A) (s : S) → o ≡ done a s → P (left_by (f a s)))
    → P (left_by (continue o f))
left_by-continue P (done a s) f h k = k a s refl
left_by-continue P (raise e s) f h k = h

-- A call that returned has returned from both its parts.
pub continue-eq-done :
    {S A B : Type 0} (o : Outcome S A) (f : A → Exec S B) {b : B} {s : S}
    → continue o f ≡ done b s
    → (a : A) × (s' : S) × (o ≡ done a s') × (f a s' ≡ done b s)
continue-eq-done (done a s') f h = (a, s', refl, h)
continue-eq-done (raise e s') f h = cc

-- What a call ensures where it returns, and where it raises.
abbrev pub Post : {S A : Type 0} → (A → S → Type 0) → (Error → S → Type 0) → Outcome S A → Type 0
Post Q E (done a s) = Q a s
Post Q E (raise e s) = E e s

pub Post-continue :
    {S A B : Type 0} (R : A → S → Type 0) (Q : B → S → Type 0) (E : Error → S → Type 0)
    (o : Outcome S A) (f : A → Exec S B)
    → Post R E o
    → ((a : A) (s : S) → R a s → Post Q E (f a s))
    → Post Q E (continue o f)
Post-continue R Q E (done a s) f h k = k a s h
Post-continue R Q E (raise e s) f h k = h

-- No exception of the model's own: the fuel was enough.
abbrev pub IsPython : {S : Type 0} → Error → S → Type 0
IsPython e s = e ≢ out_of_fuel

pub Post-left_by :
    {S A : Type 0} (P : S → Type 0) (Q : A → S → Type 0) (E : Error → S → Type 0) (o : Outcome S A)
    → P (left_by o)
    → Post Q E o
    → Post (λ a s. P s × Q a s) E o
Post-left_by P Q E (done a s) h k = (h, k)
Post-left_by P Q E (raise e s) h k = k

-- A fact about what a call ensures, at a call that is known to have returned.
pub Post-done :
    {S A : Type 0} (Q : A → S → Type 0) (E : Error → S → Type 0) {o : Outcome S A} {a : A} {s : S}
    → Post Q E o
    → o ≡ done a s
    → Q a s
Post-done Q E {o} h e = rw e at h

pub Post-raise :
    {S A : Type 0} (Q : A → S → Type 0) (E : Error → S → Type 0) {o : Outcome S A} {e : Error}
    {s : S}
    → Post Q E o
    → o ≡ raise e s
    → E e s
Post-raise Q E h p = rw p at h

pub Post-weaken :
    {S A : Type 0} (Q R : A → S → Type 0) (E F : Error → S → Type 0) (o : Outcome S A)
    → Post Q E o
    → ((a : A) (s : S) → Q a s → R a s)
    → ((e : Error) (s : S) → E e s → F e s)
    → Post R F o
Post-weaken Q R E F (done a s) h k l = k a s h
Post-weaken Q R E F (raise e s) h k l = l e s h

pub left_by-Post :
    {S A : Type 0} (P : S → Type 0) (Q : A → S → Type 0) (E : Error → S → Type 0) (o : Outcome S A)
    → Post Q E o
    → ((a : A) (s : S) → Q a s → P s)
    → ((e : Error) (s : S) → E e s → P s)
    → P (left_by o)
left_by-Post P Q E (done a s) h k l = k a s h
left_by-Post P Q E (raise e s) h k l = l e s h

-- `try: m` with `except BaseException: tidy; raise`.
abbrev pub tidied : {S A : Type 0} → Outcome S A → (S → S) → Outcome S A
tidied (done a s) tidy = done a s
tidied (raise e s) tidy = raise e (tidy s)

pub Post-tidied :
    {S A : Type 0} (Q : A → S → Type 0) (E F : Error → S → Type 0) (o : Outcome S A) (tidy : S → S)
    → Post Q E o
    → ((e : Error) (s : S) → E e s → F e (tidy s))
    → Post Q F (tidied o tidy)
Post-tidied Q E F (done a s) tidy h k = h
Post-tidied Q E F (raise e s) tidy h k = k e s h

pub Post-raise_if :
    {S B : Type 0} (Q : B → S → Type 0) (E : Error → S → Type 0) (b : Bool) (e : Error) (s : S)
    (f : Unit {0} → Exec S B)
    → (b ≡ true → E e s)
    → (b ≡ false → Post Q E (f tt s))
    → Post Q E (continue (raise_if b e s) f)
Post-raise_if Q E true e s f h k = h refl
Post-raise_if Q E false e s f h k = k refl

pub Post-or_raise :
    {S A B : Type 0} (Q : B → S → Type 0) (E : Error → S → Type 0) (o : Option A) (e : Error)
    (s : S) (f : A → Exec S B)
    → E e s
    → ((a : A) → o ≡ some a → Post Q E (f a s))
    → Post Q E (continue (or_raise o e s) f)
Post-or_raise Q E none e s f h k = h
Post-or_raise Q E (some a) e s f h k = k a refl

pub Post-if :
    {S B : Type 0} (Q : B → S → Type 0) (E : Error → S → Type 0) (b : Bool) (m n : Outcome S B)
    → (b ≡ true → Post Q E m)
    → (b ≡ false → Post Q E n)
    → Post Q E (if b then m else n)
Post-if Q E true m n h k = h refl
Post-if Q E false m n h k = k refl

pub Post-refused :
    {S A B : Type 0} (Q : B → S → Type 0) (E : Error → S → Type 0) (o : Outcome S A)
    (f : A → Exec S B) (e : Error) (s : S)
    → o ≡ raise e s
    → E e s
    → Post Q E (continue o f)
Post-refused Q E o f e s same h = subst (λ p. Post Q E (continue p f)) (sym same) h

-- What a lookup's two ends leave.
pub left_by-or_raise-cases :
    {S A B : Type 0} (P : S → Type 0) (o : Option A) (e : Error) (s : S) (f : A → Exec S B)
    → (o ≡ none → P s)
    → ((a : A) → o ≡ some a → P (left_by (f a s)))
    → P (left_by (continue (or_raise o e s) f))
left_by-or_raise-cases P none e s f h k = h refl
left_by-or_raise-cases P (some a) e s f h k = k a refl

-- A property that a test's or a lookup's exception leaves alone.
module _ {S B : Type 0} (P : S → Type 0) where
  pub left_by-raise_if :
      (b : Bool) (e : Error) (s : S) (f : Unit {0} → Exec S B)
      → P s
      → (b ≡ false → P (left_by (f tt s)))
      → P (left_by (continue (raise_if b e s) f))
  left_by-raise_if true e s f h k = h
  left_by-raise_if false e s f h k = k refl

  pub left_by-or_raise :
      {A : Type 0} (o : Option A) (e : Error) (s : S) (f : A → Exec S B)
      → P s
      → ((a : A) → o ≡ some a → P (left_by (f a s)))
      → P (left_by (continue (or_raise o e s) f))
  left_by-or_raise none e s f h k = h
  left_by-or_raise (some a) e s f h k = k a refl

-- A test that fails and a lookup that succeeds step on.
pub raise_if-false :
    {S B : Type 0} (b : Bool) (e : Error) (s : S) (f : Unit {0} → Exec S B)
    → b ≡ false
    → continue (raise_if b e s) f ≡ f tt s
raise_if-false true e s f h = cc
raise_if-false false e s f h = refl

pub or_raise-some :
    {S A B : Type 0} (o : Option A) (e : Error) (s : S) (f : A → Exec S B) {a : A}
    → o ≡ some a
    → continue (or_raise o e s) f ≡ f a s
or_raise-some none e s f h = cc
or_raise-some (some b) e s f {a} h = ap (λ x. f x s) (some-injective b a h)

pub or_raise-there :
    {S B : Type 0} (P : S → Type 0) {A : Type 0} (o : Option A) (e : Error) (s : S)
    (f : A → Exec S B)
    → is_some o ≡ true
    → ((a : A) → P (left_by (f a s)))
    → P (left_by (continue (or_raise o e s) f))
or_raise-there P none e s f h k = absurd (cc)
or_raise-there P (some a) e s f h k = k a

-- A part that is known to return, and one that leaves the state as it was.
pub Post-known :
    {S A B : Type 0} (Q : B → S → Type 0) (E : Error → S → Type 0) (o : Outcome S A)
    (f : A → Exec S B) (a : A) (s : S)
    → o ≡ done a s
    → Post Q E (f a s)
    → Post Q E (continue o f)
Post-known Q E o f a s e h = subst (λ p. Post Q E (continue p f)) (sym e) h

abbrev pub IsSteady : {S A : Type 0} → S → Outcome S A → Type 0
IsSteady s o = Post (λ _ t. t ≡ s) (λ _ t. t ≡ s) o

pub Post-steady :
    {S A B : Type 0} (Q : B → S → Type 0) (E : Error → S → Type 0) (o : Outcome S A)
    (f : A → Exec S B) (s : S)
    → IsSteady s o
    → ((e : Error) → E e s)
    → ((a : A) → o ≡ done a s → Post Q E (f a s))
    → Post Q E (continue o f)
Post-steady Q E (done a t) f s h k l = subst (λ u. Post Q E (f a u)) (sym h) (l a (ap (done a) h))
Post-steady Q E (raise e t) f s h k l = subst (E e) (sym h) (k e)

-- Such parts make such a whole.
pub continue-IsSteady :
    {S A B : Type 0} (o : Outcome S A) (f : A → Exec S B) (s : S)
    → IsSteady s o
    → ((a : A) → IsSteady s (f a s))
    → IsSteady s (continue o f)
continue-IsSteady o f s h k =
    Post-steady (λ _ t. t ≡ s) (λ _ t. t ≡ s) o f s h (λ _. refl) (λ a _. k a)

pub raise_if-IsSteady : {S : Type 0} (b : Bool) (e : Error) (s : S) → IsSteady s (raise_if b e s)
raise_if-IsSteady true e s = refl
raise_if-IsSteady false e s = refl

pub or_raise-IsSteady :
    {S A : Type 0} (o : Option A) (e : Error) (s : S) → IsSteady s (or_raise o e s)
or_raise-IsSteady none e s = refl
or_raise-IsSteady (some a) e s = refl

pub checked-IsSteady :
    {S A : Type 0} (b : Bool) (e : Error) (s : S) (f : Unit {0} → Exec S A)
    → IsSteady s (f tt s)
    → IsSteady s (continue (raise_if b e s) f)
checked-IsSteady true e s f h = refl
checked-IsSteady false e s f h = h
