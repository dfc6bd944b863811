-- ===== src/Script.antt =====
-- The parameter stack of code/gsc.cpp: what a script passes to a function of the library, the
-- stackGet… functions that read it, and what a function pushes in answer. An `int` out of a script is
-- an integer of `Int`; its 32-bit range is the engine's and is not used here.
use Prim.Native.String.{String}
use zk_libcod.Prelude.{
  ℕ, suc, Bool, true, false, List, [], ◌∷◌, Option, none, some, leb, if◌then◌else◌, length, get_or,
}
use zk_libcod.Prelude.Int.{ℤ}
use zk_libcod.Float.{FloatOps}

-- `vec3_t`
pub record Vec3 (F : Type 0) : Type 0 where
  pub x : F
  pub y : F
  pub z : F

-- A `VariableValue`, by its type tag. An object is the handle that the engine knows it by, a string is
-- interned, so its handle is its text, and a function is its offset in the program; the tags that no
-- function here reads are `other`.
pub data Value (F : Type 0) : Type 0 where
  undefined : Value F
  object : ℕ → Value F
  string : String → Value F
  localized_string : String → Value F
  function : ℤ → Value F
  vector : Vec3 F → Value F
  float : F → Value F
  integer : ℤ → Value F
  other : Value F

-- The identifiers of a format string: 'i', 'v', 'f', 's', 'c', 'l' and the space.
pub data ParamKind : Type 0 where
  int_param vector_param float_param string_param const_string_param localized_param ignored_param :
      ParamKind

module _ {F : Type 0} where
  abbrev pub is_undefined : Value F → Bool
  is_undefined undefined = true
  is_undefined _ = false

  -- Whether stackGetParamType gives VAR_UNDEFINED, which it does past the last parameter too.
  unfoldable pub param_is_undefined : List (Value F) → ℕ → Bool
  param_is_undefined args param =
      if leb (length args) param then true else is_undefined (get_or args param undefined)

  -- stackGetParamVector
  abbrev pub vector_of : Value F → Option (Vec3 F)
  vector_of (vector v) = some v
  vector_of _ = none

  unfoldable pub stack_get_param_vector : List (Value F) → ℕ → Option (Vec3 F)
  stack_get_param_vector args param =
      if leb (length args) param then none else vector_of (get_or args param undefined)

  abbrev pub string_of : Value F → Option String
  string_of (string s) = some s
  string_of _ = none

  unfoldable pub stack_get_param_string : List (Value F) → ℕ → Option String
  stack_get_param_string args param =
      if leb (length args) param then none else string_of (get_or args param undefined)

  -- stackGetParamConstString gives the handle, which is the text here.
  unfoldable pub stack_get_param_const_string : List (Value F) → ℕ → Option String
  stack_get_param_const_string args param =
      if leb (length args) param then none else string_of (get_or args param undefined)

  abbrev pub localized_of : Value F → Option String
  localized_of (localized_string s) = some s
  localized_of _ = none

  unfoldable pub stack_get_param_localized_string : List (Value F) → ℕ → Option String
  stack_get_param_localized_string args param =
      if leb (length args) param then none else localized_of (get_or args param undefined)

  abbrev pub function_of : Value F → Option ℤ
  function_of (function offset) = some offset
  function_of _ = none

  unfoldable pub stack_get_param_function : List (Value F) → ℕ → Option ℤ
  stack_get_param_function args param =
      if leb (length args) param then none else function_of (get_or args param undefined)

  abbrev pub object_of : Value F → Option ℕ
  object_of (object o) = some o
  object_of _ = none

  unfoldable pub stack_get_param_object : List (Value F) → ℕ → Option ℕ
  stack_get_param_object args param =
      if leb (length args) param then none else object_of (get_or args param undefined)

-- What stackGetParams writes through its pointers.
abbrev pub Params : (F : Type 0) → List ParamKind → Type 0
Params F [] = Unit {0}
Params F (int_param ∷ ks) = ℤ × Params F ks
Params F (vector_param ∷ ks) = Vec3 F × Params F ks
Params F (float_param ∷ ks) = F × Params F ks
Params F (string_param ∷ ks) = String × Params F ks
Params F (const_string_param ∷ ks) = String × Params F ks
Params F (localized_param ∷ ks) = String × Params F ks
Params F (ignored_param ∷ ks) = Params F ks

abbrev pub pair? {ℓ κ} : {A : Type ℓ} {B : Type κ} → Option A → Option B → Option (A × B)
pair? none b = none
pair? (some a) none = none
pair? (some a) (some b) = some (a, b)

module _ {F : Type 0} ⦃fl : FloatOps F⦄ where
  open fl use {to_int, of_int}

  -- A float is taken for an int, and is truncated.
  abbrev pub int_of : Value F → Option ℤ
  int_of (float a) = some (to_int a)
  int_of (integer n) = some n
  int_of _ = none

  unfoldable pub stack_get_param_int : List (Value F) → ℕ → Option ℤ
  stack_get_param_int args param =
      if leb (length args) param then none else int_of (get_or args param undefined)

  abbrev pub float_of : Value F → Option F
  float_of (integer n) = some (of_int n)
  float_of (float a) = some a
  float_of _ = none

  unfoldable pub stack_get_param_float : List (Value F) → ℕ → Option F
  stack_get_param_float args param =
      if leb (length args) param then none else float_of (get_or args param undefined)

  -- The loop of stackGetParams from parameter `i` on: all are read, or the call has failed.
  unfoldable pub stack_get_params_from :
      (ks : List ParamKind) → List (Value F) → ℕ → Option (Params F ks)
  stack_get_params_from [] args i = some tt
  stack_get_params_from (int_param ∷ ks) args i =
      pair? (stack_get_param_int args i) (stack_get_params_from ks args (suc i))
  stack_get_params_from (vector_param ∷ ks) args i =
      pair? (stack_get_param_vector args i) (stack_get_params_from ks args (suc i))
  stack_get_params_from (float_param ∷ ks) args i =
      pair? (stack_get_param_float args i) (stack_get_params_from ks args (suc i))
  stack_get_params_from (string_param ∷ ks) args i =
      pair? (stack_get_param_string args i) (stack_get_params_from ks args (suc i))
  stack_get_params_from (const_string_param ∷ ks) args i =
      pair? (stack_get_param_const_string args i) (stack_get_params_from ks args (suc i))
  stack_get_params_from (localized_param ∷ ks) args i =
      pair? (stack_get_param_localized_string args i) (stack_get_params_from ks args (suc i))
  stack_get_params_from (ignored_param ∷ ks) args i = stack_get_params_from ks args (suc i)

  unfoldable pub stack_get_params : (ks : List ParamKind) → List (Value F) → Option (Params F ks)
  unfolding stack_get_params_from
  stack_get_params ks args = stack_get_params_from ks args 0

  -- `Scr_GetNumParam() >= param + 1 && !stackGetParamInt(param, &value)`: a parameter with a default.
  unfoldable pub optional_int : List (Value F) → ℕ → ℤ → Option ℤ
  unfolding stack_get_param_int
  optional_int args param default =
      if leb (suc param) (length args) then stack_get_param_int args param else some default

  -- The same, where an explicit `undefined` stands for the default too.
  unfoldable pub optional_defined_int : List (Value F) → ℕ → ℤ → Option ℤ
  unfolding stack_get_param_int param_is_undefined
  optional_defined_int args param default =
      if leb (suc param) (length args)
      then (if param_is_undefined args param then some default else stack_get_param_int args param)
      else some default

  unfoldable pub optional_float : List (Value F) → ℕ → F → Option F
  unfolding stack_get_param_float
  optional_float args param default =
      if leb (suc param) (length args) then stack_get_param_float args param else some default

-- What a function leaves on the stack for the script.
pub data Answer (F : Type 0) : Type 0 where
  push_undefined : Answer F
  push_bool : Bool → Answer F
  push_int : ℤ → Answer F
  push_vector : Vec3 F → Answer F
  push_array : List (Value F) → Answer F
