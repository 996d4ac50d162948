-- ===== src/Fault.antt =====
-- How a call of the program can fail: the `__debugbreak()` behind RINGBUFFER_ASSERT, MY_ASSERT and
-- RT_ASSERT, the two kinds of `MessageException` that utility/Message.h throws, and
-- `out_of_range`, where the source goes on with a byte that is no value of its enum, or with memory that
-- is not its own; `out_of_fuel` is the model's own, for a loop whose bound was too small.
use my_mmoproject.Base.{Bool, true, false}

pub data Fault : Type 0 where
  debug_break : Fault
  has_not_data : Fault
  not_enough_space : Fault
  out_of_range : Fault
  out_of_fuel : Fault

-- What a call that may fail returns.
pub data Result {ℓ} (A : Type ℓ) : Type ℓ where
  err : Fault → Result A
  ok : A → Result A

-- The steps behind a failed one are not taken.
abbrev pub ◌>>=◌ {ℓ κ} :
    {Value : Type ℓ} {Next : Type κ} → Result Value → (Value → Result Next) → Result Next

infixl 5 ◌>>=◌
err fault >>= step = err fault
ok value >>= step = step value

infixl 5 ◌>>◌
abbrev pub ◌>>◌ {ℓ} : {Next : Type ℓ} → Result (Unit {0}) → Result Next → Result Next
first >> second = first >>= λ u. second

-- MY_ASSERT(x, …): the process stops in the debugger unless `x` holds.
abbrev pub my_assert : Bool → Result (Unit {0})
my_assert true = ok tt
my_assert false = err debug_break
