-- ===== src/CudaDriver.antt =====
-- The CUDA driver that `vmm_weight_store.py` calls through `cuda.bindings`. It is not part of the
-- repository: a component writes down the calls that it makes, newest first, and the driver's answer
-- to a call is any function of the calls made before.
use diffusers_dynamic_offloa.Prelude.{ℕ, Bool, List}

pub data Call : Type 0 where
  address_reserve : (size : ℕ) → Call
  address_free : (address size : ℕ) → Call
  mem_create : (size : ℕ) → Call
  mem_release : (handle : ℕ) → Call
  mem_map : (address size handle : ℕ) → Call
  mem_set_access : (address size : ℕ) → Call
  mem_unmap : (address size : ℕ) → Call
  wait_event : (event : ℕ) → Call
  record_event : Call
  synchronize : (event : ℕ) → Call
  copy_to_device : (address size : ℕ) → Call
  host_register : (address size : ℕ) → Call
  host_unregister : (address : ℕ) → Call

pub record Driver : Type 0 where
  pub succeeds : List Call → Call → Bool
  -- `CUDA_ERROR_HOST_MEMORY_ALREADY_REGISTERED`, in place of a success.
  pub already_registered : List Call → Call → Bool
  pub returned : List Call → Call → ℕ
