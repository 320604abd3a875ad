-- ===== src/Lua.antt =====
-- The C interface of Lua, as its reference manual describes it: a stack of values that each function
-- of the interface takes from and puts on. What Lua keeps behind the stack (globals, tables, the
-- registry) and what it runs is an interface, `Heap`.
pub mod Api
pub mod Laws
pub mod Seq
pub mod Sample
use wrk.Base.{ℕ, Bool, Option, List}

-- `addrinfo`, with the bytes behind `ai_addr`.
pub record Addr : Type 0 where
  pub family : ℕ
  pub socktype : ℕ
  pub protocol : ℕ
  pub bytes : List ℕ

-- The C functions that the program gives to Lua.
pub data CFunction : Type 0 where
  addr_tostring addr_gc stats_get stats_len stats_percentile : CFunction
  thread_index thread_newindex thread_get thread_set thread_stop : CFunction
  wrk_lookup wrk_connect wrk_time_us : CFunction

-- What the program puts into a userdata: an address, or a pointer to a `stats` or a `thread`.
pub data Udata : Type 0 where
  addr_box : Addr → Udata
  stats_box thread_box : ℕ → Udata

-- A value: tables, Lua's own functions and userdata go by reference.
pub data Value (F : Type 0) : Type 0 where
  nil : Value F
  boolean : Bool → Value F
  number : F → Value F
  string : List ℕ → Value F
  table : ℕ → Value F
  function : ℕ → Value F
  cfunction : CFunction → Value F
  userdata : ℕ → Udata → Value F

-- What Lua keeps and runs. `call` gives the results of a function, or `none` if it raises an error;
-- `table_size` and `udata_size` are the lengths that `lua_objlen` gives,
-- `next_pair` is the pair behind a key in the order of traversal, `number_text` a number as a string.
pub record Heap (W F : Type 0) : Type 0 where
  pub global : W → List ℕ → Value F
  pub set_global : W → List ℕ → Value F → W
  pub registry : W → List ℕ → Value F
  pub set_registry : W → List ℕ → Value F → W
  pub get : W → ℕ → Value F → Value F
  pub put : W → ℕ → Value F → Value F → W
  pub new_table : W → ℕ × W
  pub new_userdata : W → Udata → ℕ × W
  pub set_metatable : W → ℕ → Value F → W
  pub call : W → Value F → List (Value F) → Option (List (Value F) × W)
  pub next_pair : W → ℕ → Value F → Option (Value F × Value F)
  pub table_size : W → ℕ → ℕ
  pub number_text : F → List ℕ
  pub is_nan : F → Bool
  pub udata_size : Udata → ℕ

-- A Lua state; the top of the stack comes first.
pub record Machine (W F : Type 0) : Type 0 where
  pub stack : List (Value F)
  pub heap : W

-- Why Lua raises an error.
pub data Raised (F : Type 0) : Type 0 where
  not_a_table : Value F → Raised F
  bad_argument : Value F → Raised F
  in_call : Value F → Raised F
  cannot_transfer : Value F → Raised F
  cannot_set : Value F → Raised F
  bad_key : Value F → Raised F
  tostring_failed : ℕ → Raised F

-- `fault` is the use of a place of the stack that holds no value, which Lua leaves undefined;
-- `no_fuel` is a recursion that is deeper than the fuel.
pub data Result {ℓ} (F : Type 0) (A : Type ℓ) : Type ℓ where
  ok : A → Result F A
  raised : Raised F → Result F A
  fault : Result F A
  no_fuel : Result F A

-- A piece of code over a state `S`.
abbrev pub Step : Type 0 → Type 0 → Type 0 → Type 0
Step S F A = S → Result F (A × S)

abbrev pub M : Type 0 → Type 0 → Type 0 → Type 0
M W F A = Step (Machine W F) F A

abbrev pub pure : {S F A : Type 0} → A → Step S F A
pure a s = ok (a, s)

infixl 5 ◌>>=◌ ◌>>◌
abbrev pub ◌>>=◌ : {S F A B : Type 0} → Step S F A → (A → Step S F B) → Step S F B
◌>>=◌ m f s = elim (m s) [
  | ok (a, s') ↦ f a s'
  | raised e ↦ raised e
  | fault ↦ fault
  | no_fuel ↦ no_fuel
]

abbrev pub ◌>>◌ : {S F B : Type 0} → Step S F (Unit {0}) → Step S F B → Step S F B
m >> k = m >>= λ _. k
