-- ===== src/Util.antt =====
-- src/util.hpp: error codes and the file hash.
use trctl.Base.{ℕ, ◌*◌, ◌%◌, ◌^◌, List, [], ◌∷◌, bit_xor}
use Prim.Native.String.{String}

-- `enum class error`
pub data Error : Type 0 where
  none_error decoding_failed encoding_failed input_error libuv_error memory_allocation_failed
        task_error internal_error :
      Error

-- `ecor::task_error`: the one code that the program tells apart, and the rest.
pub data TaskError : Type 0 where
  task_allocation_failure other_failure : TaskError

-- `std::variant< ecor::task_error, error >`
pub data Failure : Type 0 where
  of_task : TaskError → Failure
  of_error : Error → Failure

unfoldable pub unify : Failure → Error
unify (of_error e) = e
unify (of_task task_allocation_failure) = memory_allocation_failed
unify (of_task other_failure) = task_error

-- `str`: `internal_error` has no text of its own.
pub error_text : Error → String
error_text none_error = "no error"
error_text decoding_failed = "decoding failed"
error_text encoding_failed = "encoding failed"
error_text input_error = "input error"
error_text libuv_error = "libuv error"
error_text memory_allocation_failed = "memory allocation failed"
error_text task_error = "task error"
error_text internal_error = "unknown"

-- `fnv1a`: the state is `hash`, and `uint32_t` multiplication wraps.
abbrev pub fnv_offset : ℕ
fnv_offset = 0x811c9dc5

abbrev pub fnv_prime : ℕ
fnv_prime = 0x1000193

unfoldable pub fnv1a : ℕ → List ℕ → ℕ
fnv1a hash [] = hash
fnv1a hash (x ∷ xs) = fnv1a ((bit_xor hash x * fnv_prime) % 2 ^ 32) xs
