-- ===== src/Config/Layers.antt =====
-- server/internal/config: where a value of a configuration comes from, stated apart from the code.
pub mod CommandLine
pub mod Server
pub mod Auth
pub mod Rest
use remote_app_start_my_linu.Prelude.{
  Bytes, Bool, true, Option, none, some, ℤ, Result, ok, err, ◌≡◌, refl, sym, ap, subst, ◌∙◌, arith,
  Option-cases, inl, inr,
}
use remote_app_start_my_linu.Icons.Size.{atoi}
use remote_app_start_my_linu.Config.Fields.{
  ConfigError, parsed, converted, parse_bool, set_duration, set_field, env_string, env_duration,
  env_int, env_bool,
}

-- What a layer gives for a field: nothing, or a text, parsed if it can be.
abbrev pub given : {A : Type 0} → (Bytes → Option A) → Option Bytes → Option (Option A)
given parse none = none
given parse (some s) = some (parse s)

abbrev pub as_is : {A : Type 0} → Option A → Option (Option A)
as_is none = none
as_is (some v) = some (some v)

-- The value that a layer leaves in a field.
abbrev pub From : {A : Type 0} → Option (Option A) → A → A → Type 0
From none old v = v ≡ old
From (some p) old v = p ≡ some v

-- The value of a field is that of the last layer that gives one: the flag, else the environment,
-- else the file, else the default.
abbrev pub Comes : {A : Type 0} → Option A → Option (Option A) → Option (Option A) → A → A → Type 0
Comes (some x) env file default v = v ≡ x
Comes none (some p) file default v = p ≡ some v
Comes none none (some q) default v = q ≡ some v
Comes none none none default v = v ≡ default

pub comes :
    {A : Type 0} (flag : Option A) (env file : Option (Option A)) (default v w : A)
    → From file default v
    → From env v w
    → Comes flag env file default (set_field w flag)
comes (some x) env file default v w h k = refl
comes none (some p) file default v w h k = k
comes none none (some q) default v w h k = h ∙ ap some (sym k)
comes none none none default v w h k = k ∙ h

pub ok_injective : {A : Type 0} (a b : A) → Path (Result ConfigError A) (ok a) (ok b) → a ≡ b
ok_injective a b h = ground arith

parsed-From :
    {A : Type 0} (e : ConfigError) (p : Option A) (old v : A)
    → Path (Result ConfigError A) (parsed e p) (ok v)
    → From (some p) old v
parsed-From e none old v h = ground arith
parsed-From e (some w) old v h = ap some (ok_injective w v h)

pub set_field-From : {A : Type 0} (old : A) (o : Option A) → From (as_is o) old (set_field old o)
set_field-From old none = refl
set_field-From old (some v) = refl

converted-From :
    {A : Type 0} (e : ConfigError) (parse : Bytes → Option A) (o : Option Bytes) (old v : A)
    → converted e parse o old ≡ ok v
    → From (given parse o) old v
converted-From e parse none old v h = sym (ok_injective old v h)
converted-From e parse (some s) old v h = parsed-From e (parse s) old v h

module _ (parse_duration : Bytes → Option ℤ) where
  pub set_duration-From :
      (old : ℤ) (o : Option Bytes) (key : Bytes) (v : ℤ)
      → set_duration parse_duration old o key ≡ ok v
      → From (given parse_duration o) old v
  unfolding set_duration
  set_duration-From old o key v h = converted-From _ parse_duration o old v h

module _ (look : Bytes → Option Bytes) where
  env_string-From :
      (key : Bytes) (old v : Bytes) → env_string look key old ≡ ok v → From (as_is (look key)) old v
  unfolding env_string
  env_string-From key old v h =
      subst (From (as_is (look key)) old) (ok_injective _ v h) (set_field-From old (look key))

  pub env_duration-From :
      (parse_duration : Bytes → Option ℤ) (key : Bytes) (old v : ℤ)
      → env_duration look parse_duration key old ≡ ok v
      → From (given parse_duration (look key)) old v
  unfolding env_duration
  env_duration-From parse_duration key old v h = converted-From _ parse_duration (look key) old v h

  pub env_int-From :
      (key : Bytes) (old v : ℤ) → env_int look key old ≡ ok v → From (given atoi (look key)) old v
  unfolding env_int
  env_int-From key old v h = converted-From _ atoi (look key) old v h

  pub env_bool-From :
      (key : Bytes) (old v : Bool)
      → env_bool look key old ≡ ok v
      → From (given parse_bool (look key)) old v
  unfolding env_bool
  env_bool-From key old v h = converted-From _ parse_bool (look key) old v h
